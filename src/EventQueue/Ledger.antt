-- ===== src/EventQueue/Ledger.antt =====
-- Who owns which reference: the queue's references are in use and distinct, and every other entry of
-- the registry is as it was without the queue.
use mathlib.Core.Path.{ap₂}
use mathlib.Core.List.{append_assoc}
use somewm.Common.{
  ℕ, ◌≡◌, ◌≢◌, refl, ◌∙◌, sym, ap, inl, inr, true, false, Option, some, none, List, [], ◌∷◌, ◌++◌,
  arith, Bool-cases, has, Nodup, has-append, append-Nodup,
}
use somewm.EventQueue.{
  Value, Registry, Event, Message, object_of, args_of, message, unref_some, cleanup,
}

abbrev pub opt_refs : Option ℕ → List ℕ
opt_refs none = []
opt_refs (some r) = r ∷ []

-- The references that an event owns, and those of a list of events.
abbrev pub refs : Event → List ℕ
refs e = opt_refs e.object_ref ++ opt_refs e.args_ref

abbrev pub all_refs : List Event → List ℕ
all_refs [] = []
all_refs (e ∷ es) = refs e ++ all_refs es

module _ (lua : Registry) where
  open lua use {State, value, ref, unref, ref_fresh, ref_value, unref_value}

  -- `base` is the registry without the queue's entries `rs`.
  pub record Ledger (base : ℕ → Option Value) (s : State) (rs : List ℕ) : Type 0 where
    pub distinct : Nodup rs
    pub in_use : (r : ℕ) → has r rs ≡ true → value s r ≢ none
    pub own : (r : ℕ) → has r rs ≡ true → base r ≡ none
    pub others : (r : ℕ) → has r rs ≡ false → value s r ≡ base r

  -- The entries `rs` hold the same in both registries.
  abbrev pub Same : State → State → List ℕ → Type 0
  Same s s' rs = (r : ℕ) → has r rs ≡ true → value s' r ≡ value s r

  module _ (base : ℕ → Option Value) where
    fresh_out :
        {s : State} {rs : List ℕ} (v : Value) → Ledger base s rs → has (ref v s).0 rs ≡ false
    fresh_out {s} {rs} v l = elim (Bool-cases (has (ref v s).0 rs)) [
      | inl h ↦ absurd (l.in_use (ref v s).0 h (ref_fresh v s))
      | inr h ↦ h
    ]

    pub Ledger-ref :
        {s : State} {rs : List ℕ} (v : Value)
        → Ledger base s rs
        → Ledger base (ref v s).1 (rs ++ (ref v s).0 ∷ []) × Same s (ref v s).1 rs
    Ledger-ref {s} {rs} v l =
        let new = (ref v s).0 in
        let out = fresh_out v l in
        (
          record {
            distinct = append-Nodup new rs l.distinct out;
            in_use =
                λ r h e. ground (arith, ref_value v s r, has-append r rs (new ∷ []), l.in_use r, e);
            own = λ r h.
                ground
                  (arith, has-append r rs (new ∷ []), l.own r, l.others new out, ref_fresh v s);
            others = λ r h. ground (arith, ref_value v s r, has-append r rs (new ∷ []), l.others r);
          },
          λ r h. ground (arith, ref_value v s r, out),
        )

    pub Ledger-unref :
        {s : State} {rs : List ℕ} (r : ℕ)
        → Ledger base s (r ∷ rs)
        → Ledger base (unref r s) rs × Same s (unref r s) rs
    Ledger-unref {s} {rs} r l = (
      record {
        distinct = l.distinct.1;
        in_use = λ q h e. ground (arith, unref_value r s q, l.in_use q, l.distinct.0, e);
        own = λ q h. l.own q (ground arith);
        others = λ q h. ground (arith, unref_value r s q, l.own r, l.others q);
      },
      λ q h. ground (arith, unref_value r s q, l.distinct.0),
    )

    -- The cleanup of the oldest event.
    pub Ledger-cleanup :
        {s : State} {rs : List ℕ} (e : Event)
        → Ledger base s (refs e ++ rs)
        → Ledger base (cleanup lua e s) rs × Same s (cleanup lua e s) rs
    unfolding cleanup unref_some
    Ledger-cleanup {s} {rs} e l = both e.object_ref e.args_ref l
      where
        both :
            (o a : Option ℕ)
            → Ledger base s ((opt_refs o ++ opt_refs a) ++ rs)
            → Ledger base (unref_some lua a (unref_some lua o s)) rs
              × Same s (unref_some lua a (unref_some lua o s)) rs
        both none none l = (l, λ r h. refl)
        both none (some a) l = Ledger-unref a l
        both (some o) none l = Ledger-unref o l
        both (some o) (some a) l =
            let (k, same) = Ledger-unref o l in
            let (m, same') = Ledger-unref a k in (m, λ r h. same' r h ∙ same r (ground arith))

  object_of-Same :
      {s s' : State} (o : Option ℕ)
      → Same s s' (opt_refs o)
      → object_of lua s' o ≡ object_of lua s o
  unfolding object_of
  object_of-Same none h = refl
  object_of-Same (some r) h = ground (arith, h r)

  args_of-Same :
      {s s' : State} (a : Option ℕ) (n : ℕ)
      → Same s s' (opt_refs a)
      → args_of lua s' a n ≡ args_of lua s a n
  unfolding args_of
  args_of-Same none n h = refl
  args_of-Same (some r) n h = ground (arith, h r)

  -- What an event says depends on its own references only.
  pub message-Same :
      {s s' : State} (e : Event) → Same s s' (refs e) → message lua s' e ≡ message lua s e
  unfolding message
  message-Same e same = ground (
    arith,
    object_of-Same e.object_ref (λ r h.
        same r (ground (arith, has-append r (opt_refs e.object_ref) (opt_refs e.args_ref)))),
    args_of-Same e.args_ref e.nargs (λ r h.
        same r (ground (arith, has-append r (opt_refs e.object_ref) (opt_refs e.args_ref)))),
  )

  abbrev pub messages : State → List Event → List (Option Message)
  messages s [] = []
  messages s (e ∷ es) = message lua s e ∷ messages s es

  pub messages-Same :
      {s s' : State} (es : List Event) → Same s s' (all_refs es) → messages s' es ≡ messages s es
  messages-Same [] same = refl
  messages-Same (e ∷ es) same =
      ap₂ ◌∷◌ (message-Same e (λ r h. same r (ground (arith, has-append r (refs e) (all_refs es)))))
        (messages-Same es (λ r h. same r (ground (arith, has-append r (refs e) (all_refs es)))))

  pub messages-append :
      (s : State) (es fs : List Event) → messages s (es ++ fs) ≡ messages s es ++ messages s fs
  messages-append s [] fs = refl
  messages-append s (e ∷ es) fs = ap (◌∷◌ (message lua s e)) (messages-append s es fs)

pub all_refs-append : (es fs : List Event) → all_refs (es ++ fs) ≡ all_refs es ++ all_refs fs
all_refs-append [] fs = refl
all_refs-append (e ∷ es) fs =
    rw (all_refs-append es fs) (sym (append_assoc (refs e) (all_refs es) (all_refs fs)))
