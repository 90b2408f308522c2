-- ===== src/Bolt/Listed.antt =====
-- Buckets as sorted association lists: an instance of the interface, which shows that its laws can
-- hold, and on which tests run.
use notification_manager.Base.{◌≡◌, refl, true, false, List, [], ◌∷◌, Str, str_lt, arith}
use notification_manager.Base.Order.{str_lt_total}
use notification_manager.Bolt.Laws.{Above-mono}
use notification_manager.Bolt.{Bolt, lookup, upsert, erase, Above, IsSorted}

module _ {V : Type 0} where
  Above-upsert :
      (i k : Str) (v : V) (l : List (Str × V))
      → str_lt i k ≡ true
      → Above i l
      → Above i (upsert k v l)
  unfolding upsert
  Above-upsert i k v [] h a = (h, tt)
  Above-upsert i k v ((j, w) ∷ r) h a = ground (
    arith,
    λ (n : str_lt k j ≡ false) (m : k ≡ j → ⊥). Above-upsert j k v r (str_lt_total k j m n) a.1,
  )

  pub upsert-IsSorted :
      (k : Str) (v : V) (l : List (Str × V)) → IsSorted l → IsSorted (upsert k v l)
  unfolding upsert
  upsert-IsSorted k v [] s = tt
  upsert-IsSorted k v ((j, w) ∷ r) s = ground (
    arith,
    λ (n : str_lt k j ≡ false) (m : k ≡ j → ⊥). Above-upsert j k v r (str_lt_total k j m n) s,
  )

  Above-erase : (i k : Str) (l : List (Str × V)) → Above i l → Above i (erase k l)
  unfolding erase
  Above-erase i k [] a = tt
  Above-erase i k ((j, w) ∷ r) a = ground (arith, Above-erase j k r a.1, Above-mono i j r a.0 a.1)

  pub erase-IsSorted : (k : Str) (l : List (Str × V)) → IsSorted l → IsSorted (erase k l)
  unfolding erase
  erase-IsSorted k [] s = tt
  erase-IsSorted k ((j, w) ∷ []) s = ground arith
  erase-IsSorted k ((j, w) ∷ (i, u) ∷ r) s = ground (arith, Above-erase j k ((i, u) ∷ r) s)

abbrev pub Listed : Type 0 → Type 0
Listed V = (l : List (Str × V)) × IsSorted l

instance abbrev pub listed : Bolt
listed = record {
  Bucket = Listed;
  empty = ([], tt);
  get = λ b k. lookup k b.0;
  put = λ b k v. (upsert k v b.0, upsert-IsSorted k v b.0 b.1);
  delete = λ b k. (erase k b.0, erase-IsSorted k b.0 b.1);
  entries = λ b. b.0;
  entries-empty = refl;
  entries-put = λ b k v. refl;
  entries-delete = λ b k. refl;
  get-entries = λ b k. refl;
  entries-IsSorted = λ b. b.1;
}
