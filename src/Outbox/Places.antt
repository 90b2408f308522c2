-- ===== src/Outbox/Places.antt =====
-- Where a receipt is: no step of the outbox loses one.
use notification_manager.Base.{
  ◌≡◌, ◌⊎◌, inl, inr, sym, ap, subst, ◌∙◌, Option, none, some, Str, arith, dec_str,
}
use notification_manager.Bolt.{Bolt}
use notification_manager.Bolt.Laws.{get-delete, get-put_self, get-put_ne, get-delete_ne}
use notification_manager.Outbox.Envelope.{Receipt, Envelope, File, json, other}
use notification_manager.Outbox.Disk.{Outbox, moved_to_completed, moved_to_dead}

abbrev pub Keeps : Option File → Receipt → Type 0
Keeps none r = ⊥
Keeps (some (other s)) r = ⊥
Keeps (some (json e)) r = e.receipt ≡ r

module _ ⦃B : Bolt⦄ where
  open B use {get, put, delete}

  -- Some file of the outbox holds the receipt.
  abbrev pub Accounted : Outbox → Receipt → Type 0
  Accounted o r =
      (name : Str) × (Keeps (get o.pending name) r
        ⊎ Keeps (get o.completed name) r
        ⊎ Keeps (get o.dead name) r)

  -- No name is pending and completed.
  abbrev pub IsApart : Outbox → Type 0
  IsApart o = (name : Str) (f : File) → get o.pending name ≡ some f → get o.completed name ≡ none

  keeps : {x y : Option File} (r : Receipt) → x ≡ y → Keeps y r → Keeps x r
  keeps r e k = subst (λ z. Keeps z r) (sym e) k

  -- A file that keeps a receipt holds it and no other.
  Keeps-same : (x : Option File) (r s : Receipt) → Keeps x r → Keeps x s → s ≡ r
  Keeps-same none r s h k = absurd h
  Keeps-same (some (other t)) r s h k = absurd h
  Keeps-same (some (json e)) r s h k = sym k ∙ h

  put_pending-Accounted :
      (o : Outbox) (name : Str) (e : Envelope) (r : Receipt)
      → (get o.pending name ≡ none) ⊎ Keeps (get o.pending name) e.receipt
      → Accounted o r
      → Accounted (record o { pending = put o.pending name (json e) }) r
  put_pending-Accounted o name e r old (n, inr there) = (n, inr there)
  put_pending-Accounted o name e r old (n, inl there) = elim (dec_str name n) [
    | no apart ↦ (n, inl (keeps r (get-put_ne o.pending name (json e) n apart) there))
    | yes same ↦ (
      name,
      inl (
          keeps r (get-put_self o.pending name (json e)) (elim old [
            | inl e' ↦ absurd (subst (λ z. Keeps z r) e' (here same))
            | inr k ↦ sym (Keeps-same (get o.pending name) e.receipt r k (here same))
          ])),
    )
  ]
    where
      here : name ≡ n → Keeps (get o.pending name) r
      here same = subst (λ z. Keeps (get o.pending z) r) (sym same) there

  complete-Accounted :
      (o : Outbox) (name : Str) (f : File) (r : Receipt)
      → IsApart o
      → get o.pending name ≡ some f
      → Accounted o r
      → Accounted (moved_to_completed name f o) r
  complete-Accounted o name f r apart here (n, place) = elim (dec_str name n) [
    | no other_name ↦ (
      n,
      elim place [
        | inl p ↦ inl (keeps r (get-delete_ne o.pending name n other_name) p)
        | inr (inl c) ↦ inr (inl (keeps r (get-put_ne o.completed name f n other_name) c))
        | inr (inr d) ↦ inr (inr d)
      ],
    )
    | yes same ↦ elim place [
      | inl p ↦ (
        name,
        inr (
            inl (
              keeps r (get-put_self o.completed name f)
                (keeps r (sym here ∙ ap (get o.pending) same) p))),
      )
      | inr (inl c) ↦
          absurd (subst (λ z. Keeps z r) (sym (ap (get o.completed) same) ∙ apart name f here) c)
      | inr (inr d) ↦ (n, inr (inr d))
    ]
  ]

  bury-Accounted :
      (o : Outbox) (name new_name : Str) (f : File) (r : Receipt)
      → get o.dead new_name ≡ none
      → get o.pending name ≡ some f
      → Accounted o r
      → Accounted (moved_to_dead name new_name f o) r
  bury-Accounted o name new_name f r fresh here (n, inr (inl c)) = (n, inr (inl c))
  bury-Accounted o name new_name f r fresh here (n, inl p) = elim (dec_str name n) [
    | no apart ↦ (n, inl (keeps r (get-delete_ne o.pending name n apart) p))
    | yes same ↦ (
      new_name,
      inr (
          inr (
            keeps r (get-put_self o.dead new_name f)
              (keeps r (sym here ∙ ap (get o.pending) same) p))),
    )
  ]
  bury-Accounted o name new_name f r fresh here (n, inr (inr d)) = elim (dec_str new_name n) [
    | no apart ↦ (n, inr (inr (keeps r (get-put_ne o.dead new_name f n apart) d)))
    | yes same ↦ absurd (subst (λ z. Keeps z r) (sym (ap (get o.dead) same) ∙ fresh) d)
  ]

  -- What a step may do: it loses no receipt, and no name is pending and completed afterwards.
  pub record Safe (o o' : Outbox) : Type 0 where
    pub apart : IsApart o'
    pub accounted : (r : Receipt) → Accounted o r → Accounted o' r

  pub Safe-same : (o o' : Outbox) → IsApart o → o' ≡ o → Safe o o'
  Safe-same o o' apart e = subst (Safe o) (sym e) (record { apart = apart; accounted = λ r a. a })

  pub Safe-trans : (o o' o'' : Outbox) → Safe o o' → Safe o' o'' → Safe o o''
  Safe-trans o o' o'' a b = record {
    apart = b.apart;
    accounted = λ r x. b.accounted r (a.accounted r x);
  }

  pub put_pending-Safe :
      (o : Outbox) (name : Str) (e : Envelope)
      → IsApart o
      → get o.completed name ≡ none
      → (get o.pending name ≡ none) ⊎ Keeps (get o.pending name) e.receipt
      → Safe o (record o { pending = put o.pending name (json e) })
  put_pending-Safe o name e apart free old = record {
    apart = λ n f p. elim (dec_str name n) [
      | yes same ↦ sym (ap (get o.completed) same) ∙ free
      | no m ↦ apart n f (sym (get-put_ne o.pending name (json e) n m) ∙ p)
    ];
    accounted = λ r a. put_pending-Accounted o name e r old a;
  }

  pub complete-Safe :
      (o : Outbox) (name : Str) (f : File)
      → IsApart o
      → get o.pending name ≡ some f
      → Safe o (moved_to_completed name f o)
  complete-Safe o name f apart here = record {
    apart = λ n g p. elim (dec_str name n) [
      | yes same ↦ absurd (ground (arith, get-delete o.pending name n))
      | no m ↦
          get-put_ne o.completed name f n m ∙ apart n g (sym (get-delete_ne o.pending name n m) ∙ p)
    ];
    accounted = λ r a. complete-Accounted o name f r apart here a;
  }

  pub bury-Safe :
      (o : Outbox) (name new_name : Str) (f : File)
      → IsApart o
      → get o.dead new_name ≡ none
      → get o.pending name ≡ some f
      → Safe o (moved_to_dead name new_name f o)
  bury-Safe o name new_name f apart fresh here = record {
    apart = λ n g p. elim (dec_str name n) [
      | yes same ↦ absurd (ground (arith, get-delete o.pending name n))
      | no m ↦ apart n g (sym (get-delete_ne o.pending name n m) ∙ p)
    ];
    accounted = λ r a. bury-Accounted o name new_name f r fresh here a;
  }
