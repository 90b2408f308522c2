-- ===== src/Bolt.antt =====
-- go.etcd.io/bbolt, as far as pkg/notification_spool relies on it. The code of bbolt is not part of
-- the repository: a bucket is a parameter, with what its documentation promises as laws.
pub mod Laws
pub mod Listed
use notification_manager.Base.{
  ◌≡◌, Bool, true, false, Option, none, some, List, [], ◌∷◌, Str, dec_str, str_lt, if◌then◌else◌,
  ite,
}

-- The reference view of a bucket: its pairs in ascending byte order of the keys.
module _ {V : Type 0} where
  unfoldable pub lookup : Str → List (Str × V) → Option V
  lookup k [] = none
  lookup k ((j, v) ∷ r) = ite (dec_str k j) (some v) (lookup k r)

  unfoldable pub upsert : Str → V → List (Str × V) → List (Str × V)
  upsert k v [] = (k, v) ∷ []
  upsert k v ((j, w) ∷ r) =
      ite (dec_str k j) ((k, v) ∷ r)
        (if str_lt k j then (k, v) ∷ (j, w) ∷ r else (j, w) ∷ upsert k v r)

  unfoldable pub erase : Str → List (Str × V) → List (Str × V)
  erase k [] = []
  erase k ((j, w) ∷ r) = ite (dec_str k j) r ((j, w) ∷ erase k r)

  abbrev pub Above : Str → List (Str × V) → Type 0
  Above k [] = Unit
  Above k ((j, w) ∷ r) = (str_lt k j ≡ true) × Above j r

  abbrev pub IsSorted : List (Str × V) → Type 0
  IsSorted [] = Unit
  IsSorted ((j, w) ∷ r) = Above j r

-- Bucket.Get, Bucket.Put and Bucket.Delete, and the pairs that a Cursor or ForEach visits.
pub record Bolt : Type 1 where
  pub Bucket : Type 0 → Type 0
  pub empty : {V : Type 0} → Bucket V
  pub get : {V : Type 0} → Bucket V → Str → Option V
  pub put : {V : Type 0} → Bucket V → Str → V → Bucket V
  pub delete : {V : Type 0} → Bucket V → Str → Bucket V
  pub entries : {V : Type 0} → Bucket V → List (Str × V)
  pub entries-empty : {V : Type 0} → entries (empty {V = V}) ≡ []
  pub entries-put :
      {V : Type 0} (b : Bucket V) (k : Str) (v : V) → entries (put b k v) ≡ upsert k v (entries b)
  pub entries-delete :
      {V : Type 0} (b : Bucket V) (k : Str) → entries (delete b k) ≡ erase k (entries b)
  pub get-entries : {V : Type 0} (b : Bucket V) (k : Str) → get b k ≡ lookup k (entries b)
  pub entries-IsSorted : {V : Type 0} (b : Bucket V) → IsSorted (entries b)
