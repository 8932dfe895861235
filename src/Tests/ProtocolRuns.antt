-- ===== src/Tests/ProtocolRuns.antt =====
-- Frames that crates/mongo-protocol/src/lib.rs decodes.
use mongodb_dam.Protocol.Types.{Decode}
use mongodb_dam.Protocol.Frame.{decode_frame}
use mongodb_dam.Protocol.Message.{Message}
use mongodb_dam.Tests.Samples.{plain, ping_frame}

decoded : Decode (Message plain)
unfolding decode_frame
decoded = decode_frame plain ping_frame 100
