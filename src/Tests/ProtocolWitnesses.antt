-- ===== src/Tests/ProtocolWitnesses.antt =====
-- The theorems of the decoder at a frame of a `ping` command and at pieces of it.
use mongodb_dam.Common.{
  codes, is_utf8, any_control, ◌≡◌, ◌↔◌, refl, arith, true, false, none, some, Bytes, [], ◌∷◌, ◌++◌,
  take, drop,
}
use mongodb_dam.Common.Int.{pos}
use mongodb_dam.Common.Outcome.{ok, Ensures}
use mongodb_dam.Protocol.Types.{default_config}
use mongodb_dam.Protocol.Message.{Message}
use mongodb_dam.Protocol.Frame.{decode_frame, decode_frame_prefix}
use mongodb_dam.Protocol.Bson.{skip_value}
use mongodb_dam.Protocol.Json.{bson_document_to_json}
use mongodb_dam.Protocol.Bson.Bounds.{Returns, ValueEnd, skip_value-ValueEnd}
use mongodb_dam.Protocol.Json.Bounds.{bson_document_to_json-Returns}
use mongodb_dam.Protocol.Frame.Bounds.{decode_frame_prefix-Returns}
use mongodb_dam.Protocol.Scram.{parse_scram_principal}
use mongodb_dam.Protocol.Scram.RoundTrip.{escape, IsPrincipal, parse_scram_principal-escape}
use mongodb_dam.Protocol.Frame.Header.{IsDecodedFrom, decode_frame-IsDecodedFrom}
use mongodb_dam.Protocol.Stream.{
  StreamDecoder, new, header_length, head_of, push, push_loop, push_turn, push_frame,
  push_bounded_prefix, overflows, extend,
}
use mongodb_dam.Protocol.Stream.Framing.{Cut, push_iff}
use mongodb_dam.Protocol.Stream.Chunks.{push-push}
use mongodb_dam.Protocol.Stream.Retention.{Retains, Kept, push_bounded_prefix-Kept}
use mongodb_dam.Protocol.Stream.Bounds.{push_bounded_prefix-Returns}
use mongodb_dam.Tests.Samples.{plain, ping, ping_frame}

abbrev ping_message : Message plain
ping_message = record {
  request_id = pos 7;
  response_to = pos 0;
  wire_bytes = 47;
  flags = 0;
  more_to_come = false;
  compressed = false;
  command = some (record {
    name = 112 ∷ 105 ∷ 110 ∷ 103 ∷ [];
    database = some (97 ∷ []);
    collection = none;
    auth_mechanism = none;
    principal = none;
    speculative_auth = false;
    delete_scope = none;
    delete_statements = none;
    query = none;
  });
  status = none;
}

abbrev decoder : StreamDecoder
decoder = new default_config

abbrev first_piece : Bytes
first_piece = take 20 ping_frame

abbrev second_piece : Bytes
second_piece = drop 20 ping_frame

abbrev halfway : StreamDecoder
halfway = record { config = default_config; buffer = first_piece }

waiting : push plain decoder first_piece ≡ (ok [], halfway)
unfolding push push_loop push_turn head_of header_length
waiting = refl

whole : push plain halfway second_piece ≡ (ok (ping_message ∷ []), decoder)
unfolding push push_loop push_turn push_frame decode_frame head_of header_length
whole = refl

push-push_example :
    push plain decoder (first_piece ++ second_piece) ≡ (ok ([] ++ (ping_message ∷ [])), decoder)
push-push_example =
    push-push plain decoder halfway decoder first_piece second_piece [] (ping_message ∷ []) waiting
      whole (omega arith)

push_iff_example : (push plain halfway second_piece ≡ (ok (ping_message ∷ []), decoder)) ↔ (
    (overflows plain halfway second_piece ≡ false)
    × Cut plain (extend plain halfway second_piece) (ping_message ∷ []) decoder)
push_iff_example = push_iff plain halfway second_piece (ping_message ∷ []) decoder

decode_frame_prefix-Returns_example : Returns (decode_frame_prefix plain first_piece 100)
decode_frame_prefix-Returns_example = decode_frame_prefix-Returns plain first_piece 100

bson_document_to_json-Returns_example : Returns (bson_document_to_json plain ping)
bson_document_to_json-Returns_example = bson_document_to_json-Returns plain ping

skip_value-ValueEnd_example : Ensures (ValueEnd ping 19) (skip_value ping 19 2)
skip_value-ValueEnd_example = skip_value-ValueEnd ping 19 2

halfway-Retains : Retains plain 32 halfway
unfolding head_of header_length
halfway-Retains = record { below = omega arith; waits = refl }

push_bounded_prefix-Kept_example : Kept plain 32 (push_bounded_prefix plain halfway second_piece 32)
push_bounded_prefix-Kept_example =
    push_bounded_prefix-Kept plain 32 halfway second_piece (omega arith) halfway-Retains
      (omega arith)

push_bounded_prefix-Returns_example : Returns (push_bounded_prefix plain halfway second_piece 32).0
push_bounded_prefix-Returns_example = push_bounded_prefix-Returns plain halfway second_piece 32

abbrev user : Bytes
user = codes "a,b="

abbrev nonce : Bytes
nonce = codes "r=x"

user-IsPrincipal : IsPrincipal user
unfolding any_control
user-IsPrincipal = (omega arith, omega arith, refl)

user_is_text : is_utf8 (b'n' ∷ b',' ∷ b',' ∷ b'n' ∷ b'=' ∷ (escape user ++ (b',' ∷ nonce))) ≡ true
unfolding is_utf8 escape
user_is_text = refl

parse_scram_principal-escape_example :
    parse_scram_principal (b'n' ∷ b',' ∷ b',' ∷ b'n' ∷ b'=' ∷ (escape user ++ (b',' ∷ nonce)))
    ≡ some user
parse_scram_principal-escape_example =
    parse_scram_principal-escape user nonce user-IsPrincipal user_is_text

decode_frame-IsDecodedFrom_example :
    Ensures (IsDecodedFrom plain ping_frame 100) (decode_frame plain ping_frame 100)
decode_frame-IsDecodedFrom_example = decode_frame-IsDecodedFrom plain ping_frame 100
