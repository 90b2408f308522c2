-- ===== src/Bolt/Laws.antt =====
-- What Put and Delete do to Get, to counts of pairs and to the pairs that a cursor visits.
use mathlib.Core.List.{Memᴰ}
use notification_manager.Base.{
  ℕ, suc, ◌+◌, ◌≡◌, ◌≢◌, refl, sym, ap, subst, ◌∙◌, Bool, true, Option, none, some, List, [], ◌∷◌,
  Str, dec_str, str_lt, if◌then◌else◌, ite, arith,
}
use notification_manager.Base.Order.{str_lt_trans, str_lt_ne}
use notification_manager.Bolt.{Bolt, lookup, upsert, erase, Above, IsSorted}

module _ {V : Type 0} where
  lookup-upsert :
      (k j : Str) (v : V) (l : List (Str × V))
      → lookup j (upsert k v l) ≡ ite (dec_str k j) (some v) (lookup j l)
  unfolding lookup upsert
  lookup-upsert k j v [] = ground arith
  lookup-upsert k j v ((i, w) ∷ r) = ground (arith, lookup-upsert k j v r)

  pub Above-mono : (j k : Str) (l : List (Str × V)) → str_lt j k ≡ true → Above k l → Above j l
  Above-mono j k [] h a = tt
  Above-mono j k ((i, w) ∷ r) h a = (str_lt_trans j k i h a.0, a.1)

  lookup-Above : (k : Str) (l : List (Str × V)) → Above k l → lookup k l ≡ none
  unfolding lookup
  lookup-Above k [] a = refl
  lookup-Above k ((j, w) ∷ r) a =
      ground (arith, str_lt_ne k j a.0, lookup-Above k r (Above-mono k j r a.0 a.1))

  IsSorted-tail : (j : Str) (r : List (Str × V)) → Above j r → IsSorted r
  IsSorted-tail j [] a = tt
  IsSorted-tail j ((i, w) ∷ r) a = a.1

  lookup-erase :
      (k j : Str) (l : List (Str × V))
      → IsSorted l
      → lookup j (erase k l) ≡ ite (dec_str k j) none (lookup j l)
  unfolding lookup erase
  lookup-erase k j [] s = ground arith
  lookup-erase k j ((i, w) ∷ r) s = ground (
    arith,
    lookup-erase k j r (IsSorted-tail i r s),
    λ (e : j ≡ i). lookup-Above j r (subst (λ x. Above x r) (sym e) s),
  )

  -- The number of pairs whose value passes a test.
  unfoldable pub count : (V → Bool) → List (Str × V) → ℕ
  count p [] = 0
  count p ((k, v) ∷ r) = let n = count p r in if p v then suc n else n

  abbrev pub weight : (V → Bool) → Option V → ℕ
  weight p none = 0
  weight p (some v) = if p v then 1 else 0

  count-upsert :
      (p : V → Bool) (k : Str) (v : V) (l : List (Str × V))
      → IsSorted l
      → count p (upsert k v l) + weight p (lookup k l) ≡ count p l + weight p (some v)
  unfolding count upsert lookup
  count-upsert p k v [] s = ground arith
  count-upsert p k v ((i, w) ∷ r) s = ground (
    arith,
    count-upsert p k v r (IsSorted-tail i r s),
    λ (h : str_lt k i ≡ true). lookup-Above k r (Above-mono k i r h s),
  )

  count-erase :
      (p : V → Bool) (k : Str) (l : List (Str × V))
      → count p (erase k l) + weight p (lookup k l) ≡ count p l
  unfolding count erase lookup
  count-erase p k [] = omega arith
  count-erase p k ((i, w) ∷ r) = ground (arith, count-erase p k r)

  pub lt_of_mem :
      (i k : Str) (v : V) (r : List (Str × V)) → Above i r → Memᴰ (k, v) r → str_lt i k ≡ true
  lt_of_mem i k v [] a m = elim m [ ]
  lt_of_mem i k v ((j, w) ∷ r) a (Memᴰ.head e) =
      subst (λ x. str_lt i x ≡ true) (ap (λ q. q.0) (sym e)) a.0
  lt_of_mem i k v ((j, w) ∷ r) a (Memᴰ.tail m) = str_lt_trans i j k a.0 (lt_of_mem j k v r a.1 m)

  lookup_of_mem :
      (k : Str) (v : V) (l : List (Str × V)) → IsSorted l → Memᴰ (k, v) l → lookup k l ≡ some v
  unfolding lookup
  lookup_of_mem k v [] s m = elim m [ ]
  lookup_of_mem k v ((i, w) ∷ r) s (Memᴰ.head e) = ground arith
  lookup_of_mem k v ((i, w) ∷ r) s (Memᴰ.tail m) =
      ground
        (arith, lookup_of_mem k v r (IsSorted-tail i r s) m, str_lt_ne i k (lt_of_mem i k v r s m))

  mem_of_lookup : (k : Str) (v : V) (l : List (Str × V)) → lookup k l ≡ some v → Memᴰ (k, v) l
  unfolding lookup
  mem_of_lookup k v [] h = cc
  mem_of_lookup k v ((i, w) ∷ r) h = elim (dec_str k i) [
    | yes e ↦ Memᴰ.head (ground arith)
    | no n ↦ Memᴰ.tail (mem_of_lookup k v r (ground arith))
  ]

module _ ⦃B : Bolt⦄ {V : Type 0} where
  open B use {
    Bucket, get, put, delete, entries, entries-put, entries-delete, get-entries, entries-IsSorted,
  }

  pub get-put :
      (b : Bucket V) (k : Str) (v : V) (j : Str)
      → get (put b k v) j ≡ ite (dec_str k j) (some v) (get b j)
  get-put b k v j =
      rw (get-entries (put b k v) j, entries-put b k v, get-entries b j)
        (lookup-upsert k j v (entries b))

  pub get-delete :
      (b : Bucket V) (k j : Str) → get (delete b k) j ≡ ite (dec_str k j) none (get b j)
  get-delete b k j =
      rw (get-entries (delete b k) j, entries-delete b k, get-entries b j)
        (lookup-erase k j (entries b) (entries-IsSorted b))

  pub get-put_self : (b : Bucket V) (k : Str) (v : V) → get (put b k v) k ≡ some v
  get-put_self b k v = ground (arith, get-put b k v k)

  pub get-put_ne : (b : Bucket V) (k : Str) (v : V) (j : Str) → k ≢ j → get (put b k v) j ≡ get b j
  get-put_ne b k v j n = ground (arith, get-put b k v j)

  pub get-delete_ne : (b : Bucket V) (k j : Str) → k ≢ j → get (delete b k) j ≡ get b j
  get-delete_ne b k j n = ground (arith, get-delete b k j)

  pub count-put :
      (p : V → Bool) (b : Bucket V) (k : Str) (v : V)
      → count p (entries (put b k v)) + weight p (get b k) ≡ count p (entries b) + weight p (some v)
  count-put p b k v =
      rw (get-entries b k, entries-put b k v) (count-upsert p k v (entries b) (entries-IsSorted b))

  pub count-delete :
      (p : V → Bool) (b : Bucket V) (k : Str)
      → count p (entries (delete b k)) + weight p (get b k) ≡ count p (entries b)
  count-delete p b k = rw (get-entries b k, entries-delete b k) (count-erase p k (entries b))

  pub get_of_mem : (b : Bucket V) (k : Str) (v : V) → Memᴰ (k, v) (entries b) → get b k ≡ some v
  get_of_mem b k v m = rw (get-entries b k) (lookup_of_mem k v (entries b) (entries-IsSorted b) m)

  pub mem_of_get : (b : Bucket V) (k : Str) (v : V) → get b k ≡ some v → Memᴰ (k, v) (entries b)
  mem_of_get b k v h = mem_of_lookup k v (entries b) (sym (get-entries b k) ∙ h)

module _ ⦃B : Bolt⦄ {V : Type 0} where
  open B use {empty, get, entries, entries-empty, get-entries}

  pub get-empty : (k : Str) → get (empty {V = V}) k ≡ none
  unfolding lookup
  get-empty k = rw (get-entries (empty {V = V}) k, entries-empty {V = V}) refl

  pub count-empty : (p : V → Bool) → count p (entries (empty {V = V})) ≡ 0
  unfolding count
  count-empty p = rw (entries-empty {V = V}) refl
