-- ===== src/EventQueue/Move/Swap.antt =====
-- A reference in the middle of those that the queue owns is given back, and a new one takes its place.
use mathlib.Core.List.{append-nil}
use somewm.Common.{
  ℕ, ◌≡◌, sym, ◌∙◌, Option, some, List, [], ◌∷◌, ◌++◌, arith, has, Nodup, has-append,
}
use somewm.EventQueue.{Value, Registry}
use somewm.EventQueue.Ledger.{Ledger, Same, Ledger-ref, Ledger-unref}

has-middle : (r a : ℕ) (p q : List ℕ) → has r (p ++ a ∷ q) ≡ has r (a ∷ p ++ q)
has-middle r a p q = ground (arith, has-append r p (a ∷ q), has-append r p q)

Nodup-middle : (a : ℕ) (p q : List ℕ) → Nodup (p ++ a ∷ q) → Nodup (a ∷ p ++ q)
Nodup-middle a [] q n = n
Nodup-middle a (x ∷ p) q n =
    let (h, m) = Nodup-middle a p q n.1 in
    (ground (arith, has-middle x a p q, n.0), (ground (arith, has-middle x a p q, n.0), m))

Nodup-insert : (a : ℕ) (p q : List ℕ) → Nodup (a ∷ p ++ q) → Nodup (p ++ a ∷ q)
Nodup-insert a [] q n = n
Nodup-insert a (x ∷ p) q (h, (k, n)) =
    (ground (arith, has-middle x a p q), Nodup-insert a p q (ground arith, n))

module _ (lua : Registry) (base : ℕ → Option Value) where
  -- The order of the references does not matter.
  Ledger-order :
      {s : lua.State} (rs rs' : List ℕ)
      → ((r : ℕ) → has r rs' ≡ has r rs)
      → Nodup rs'
      → Ledger lua base s rs
      → Ledger lua base s rs'
  Ledger-order rs rs' same n l = record {
    distinct = n;
    in_use = λ r h. l.in_use r (sym (same r) ∙ h);
    own = λ r h. l.own r (sym (same r) ∙ h);
    others = λ r h. l.others r (sym (same r) ∙ h);
  }

  -- What the swap leaves: the new reference holds the value, and the others hold what they held.
  pub record Swapped (p q : List ℕ) (v : Value) (s s' : lua.State) (b : ℕ) : Type 0 where
    pub ledger : Ledger lua base s' (p ++ b ∷ q)
    pub same : Same lua s s' (p ++ q)
    pub holds : lua.value s' b ≡ some v

  pub swap-Ledger :
      {s : lua.State} (a : ℕ) (p q : List ℕ) (v : Value)
      → Ledger lua base s (p ++ a ∷ q)
      → let t = lua.unref a s in Swapped p q v s (lua.ref v t).1 (lua.ref v t).0
  swap-Ledger {s} a p q v l =
      let t = lua.unref a s in
      let b = (lua.ref v t).0 in
      let front =
        Ledger-order (p ++ a ∷ q) (a ∷ p ++ q) (λ r. sym (has-middle r a p q))
          (Nodup-middle a p q l.distinct) l in
      let (out, same) = Ledger-unref lua base a front in
      let (last, same') = Ledger-ref lua base v out in
      let moved : Nodup (b ∷ p ++ q) =
        rw (← append-nil (p ++ q)) (Nodup-middle b (p ++ q) [] last.distinct) in
      record {
        ledger =
            Ledger-order ((p ++ q) ++ b ∷ []) (p ++ b ∷ q)
              (λ r. has-middle r b p q ∙ ground (arith, has-append r (p ++ q) (b ∷ [])))
              (Nodup-insert b p q moved) last;
        same = λ r h. same' r h ∙ same r h;
        holds = lua.ref_value v t b ∙ ground arith;
      }
