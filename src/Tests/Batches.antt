-- ===== src/Tests/Batches.antt =====
-- The data of the spool's tests: a digest of 64 equal digits, and a spool that holds one batch.
use mongodb_dam.Common.{
  ℕ, zero, suc, ◌≡◌, refl, arith, true, Bytes, [], ◌∷◌, length, all_bytes, is_ascii_hexdigit, inl,
}
use mongodb_dam.Spool.Digest.{Digest}
use mongodb_dam.Spool.Files.{json, lookup}
use mongodb_dam.Spool.Store.{DurableSpool, PendingItem}
use mongodb_dam.Spool.Store.Invariant.{IsValid}

abbrev pub digits : ℕ → ℕ → Bytes
digits zero digit = []
digits (suc n) digit = digit ∷ digits n digit

-- The digit of a body: its first byte decides between three.
abbrev pub digit_of : Bytes → ℕ
digit_of [] = 48
digit_of (zero ∷ body) = 49
digit_of (suc b ∷ body) = 50

abbrev pub id_of : Bytes → Bytes
id_of body = digits 64 (digit_of body)

pub length-id_of : (body : Bytes) → length (id_of body) ≡ 64
length-id_of body = refl

pub hex-id_of : (body : Bytes) → all_bytes is_ascii_hexdigit (id_of body) ≡ true
unfolding all_bytes
hex-id_of [] = refl
hex-id_of (zero ∷ body) = refl
hex-id_of (suc b ∷ body) = refl

abbrev pub digest : Digest
digest = record { id_of = id_of; length-id_of = length-id_of; hex-id_of = hex-id_of }

abbrev pub batch : Bytes
batch = 7 ∷ 8 ∷ 9 ∷ []

abbrev pub item : PendingItem
item = record { id = id_of batch; path = json (id_of batch); bytes = 3 }

abbrev pub empty : DurableSpool
empty = record { root = []; quarantine = []; max_bytes = 100 }

abbrev pub full : DurableSpool
full = record { root = (json (id_of batch), batch) ∷ []; quarantine = []; max_bytes = 3 }

pub empty-IsValid : IsValid digest empty
unfolding lookup
empty-IsValid = record {
  unique_root = tt;
  unique_quarantine = tt;
  addressed_root = λ id body h. ground arith;
  addressed_quarantine = λ id body h. ground arith;
  disjoint = λ id. inl refl;
}
