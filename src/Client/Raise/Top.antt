-- ===== src/Client/Raise/Top.antt =====
-- client_raise(): the client goes on top, with the clients that it is a transient of right below it.
use somewm.Common.{
  ℕ, zero, suc, ◌≤◌, ◌≡◌, refl, sym, ap, ◌∙◌, subst, inl, inr, true, false, Option, none, some,
  List, [], ◌∷◌, ◌++◌, arith, Bool-cases, Option-cases, if◌then◌else◌, ◌==◌, ==_iff, has, erase,
  Nodup, has-append, erase-none,
}
use mathlib.Core.List.{append-nil, append_assoc}
use somewm.World.{World, Client, parent, raised}
use somewm.Stack.{stack_client_append}
use somewm.Stack.Layer.{Ends, stop, step}
use somewm.Stack.Order.{stack_client_append-stack}
use somewm.Client.{Host, emit}
use somewm.Client.Raise.{transient_depth, climb, raise_loop, client_raise}

-- `xs` is the chain of parents of `c`, the client that has none first and `c` last.
pub data Lineage (up : ℕ → Option ℕ) : List ℕ → ℕ → Type 0 where
  top : {c : ℕ} → up c ≡ none → Lineage up (c ∷ []) c
  child : {c p : ℕ} {xs : List ℕ} → up c ≡ some p → Lineage up xs p → Lineage up (xs ++ c ∷ []) c

-- The clients that are not in `xs`, in order.
abbrev pub without : List ℕ → List ℕ → List ℕ
without xs [] = []
without xs (y ∷ ys) = if has y xs then without xs ys else y ∷ without xs ys

has-without : (a : ℕ) (xs ys : List ℕ) → has a ys ≡ false → has a (without xs ys) ≡ false
has-without a xs [] h = refl
has-without a xs (y ∷ ys) h = ground (arith, has-without a xs ys)

erase-append : (a : ℕ) (xs ys : List ℕ) → has a ys ≡ false → erase a (xs ++ ys) ≡ erase a xs ++ ys
erase-append a [] ys h = erase-none a ys h
erase-append a (x ∷ xs) ys h = ground (arith, erase-append a xs ys)

without-last :
    (d : ℕ) (ys s : List ℕ)
    → Nodup s
    → has d ys ≡ false
    → erase d (without ys s) ≡ without (ys ++ d ∷ []) s
without-last d ys [] n h = refl
without-last d ys (x ∷ s) n h = elim (Bool-cases (x == d)) [
  | inl same ↦
      let gone : has d s ≡ false = rw (← (==_iff x d).0 same) n.0 in
      ground (
        arith,
        without-last d ys s n.1 h,
        has-append x ys (d ∷ []),
        erase-none d (without ys s) (has-without d ys s gone),
        (==_iff x d).0 same,
      )
  | inr other ↦ ground (arith, without-last d ys s n.1 h, has-append x ys (d ∷ []))
]

some-inj : (p q : ℕ) (o : Option ℕ) → o ≡ some p → o ≡ some q → p ≡ q
some-inj p q o e f = ground (arith, sym e ∙ f)

Ends-unique : {up : ℕ → Option ℕ} {n m x : ℕ} → Ends up n x → Ends up m x → n ≡ m
Ends-unique (stop e) (stop f) = refl
Ends-unique (stop e) (step f r) = absurd cc
Ends-unique (step e r) (stop f) = absurd cc
Ends-unique {up} {x} (step {p} e r) (step {p = q} f t) =
    ap suc (Ends-unique (subst (Ends up _) (some-inj p q (up x) e f) r) t)

module _ (up : ℕ → Option ℕ) where
  -- The members of a chain end no later than its client.
  Lineage-Ends :
      {ys : List ℕ} {p j : ℕ} (x : ℕ)
      → Lineage up ys p
      → Ends up j p
      → has x ys ≡ true
      → (m : ℕ) × (m ≤ j) × Ends up m x
  Lineage-Ends {p} {j} x (top e) r h =
      (j, omega arith, subst (Ends up j) ((==_iff p x).0 (ground arith)) r)
  Lineage-Ends {p} x (child e l) (stop f) h = absurd cc
  Lineage-Ends {p} x (child {p = q} {xs} e l) (step {n} {p = t} f r) h =
      elim (Bool-cases (p == x)) [
        | inl same ↦ (suc n, omega arith, subst (Ends up (suc n)) ((==_iff p x).0 same) (step f r))
        | inr other ↦
            let (m, le, u) =
              Lineage-Ends x l (subst (Ends up n) (some-inj t q (up p) f e) r)
                (ground (arith, has-append x xs (p ∷ []))) in
            (m, omega arith, u)
      ]

  -- What comes after the chain `ys`: a client without a parent if it is empty, else a child of its
  -- last.
  data Next (ys : List ℕ) (d : ℕ) : Type 0 where
    start : ys ≡ [] → up d ≡ none → Next ys d
    after : {j p : ℕ} → Lineage up ys p → Ends up j p → up d ≡ some p → Next ys d

  Next-fresh : (ys : List ℕ) (d : ℕ) → Next ys d → has d ys ≡ false
  Next-fresh ys d (start e f) = rw e refl
  Next-fresh ys d (after {j} {p} l r e) = elim (Bool-cases (has d ys)) [
    | inl h ↦
        let (m, le, u) = Lineage-Ends d l r h in
        let same = Ends-unique u (step e r) in absurd (omega arith)
    | inr h ↦ h
  ]

  Next-Lineage : (ys : List ℕ) (d : ℕ) → Next ys d → Lineage up (ys ++ d ∷ []) d
  Next-Lineage ys d (start e f) = rw e (top f)
  Next-Lineage ys d (after l r e) = child e l

  Next-Ends : (ys : List ℕ) (d : ℕ) → Next ys d → (j : ℕ) × Ends up j d
  Next-Ends ys d (start e f) = (0, stop f)
  Next-Ends ys d (after {j} l r e) = (suc j, step e r)

  -- One step more of the climb is one parent more.
  climb-suc :
      (k c d : ℕ)
      → climb (suc k) up c ≡ some d
      → (e : ℕ) × (climb k up c ≡ some e) × (up e ≡ some d)
  unfolding climb
  climb-suc zero c d h = (c, refl, ground arith)
  climb-suc (suc k) c d h = elim (Option-cases (up c)) [
    | inl e ↦ absurd (ground arith)
    | inr (q, e) ↦ let (x, a, b) = climb-suc k q d (ground arith) in (x, ground arith, b)
  ]

  climb-Ends : (n c : ℕ) → Ends up n c → (d : ℕ) × (climb n up c ≡ some d) × (up d ≡ none)
  unfolding climb
  climb-Ends zero c (stop e) = (c, refl, e)
  climb-Ends (suc n) c (step {p} e r) = let (d, a, b) = climb-Ends n p r in (d, ground arith, b)

-- The depth loop counts the parents of a chain that ends, with a round for each and one more.
transient_depth-Ends :
    (w : World) {n c : ℕ} → Ends (parent w) n c → transient_depth (suc n) w c ≡ some n
unfolding transient_depth
transient_depth-Ends w (stop e) = ground arith
transient_depth-Ends w (step e r) = ground (arith, transient_depth-Ends w r)

module _ (store : ℕ → Client) (s : List ℕ) (distinct : Nodup s) where
  abbrev up : ℕ → Option ℕ
  up c = (store c).transient_for

  -- The clients `ys` were appended, in this order.
  record Placed (ys : List ℕ) (w : World) : Type 0 where
    client : w.client ≡ store
    stack : w.stack ≡ without ys s ++ ys

  append-Placed :
      (ys : List ℕ) (d : ℕ) (w : World)
      → has d ys ≡ false
      → Placed ys w
      → Placed (ys ++ d ∷ []) (stack_client_append w d)
  append-Placed ys d w h p =
      let (e, same) = stack_client_append-stack w d in
      record {
        client = same.client ∙ p.client;
        stack =
            e
            ∙ ap (λ (t : List ℕ). erase d t ++ d ∷ []) p.stack
            ∙ ap (λ (t : List ℕ). t ++ d ∷ []) (erase-append d (without ys s) ys h)
            ∙ append_assoc (erase d (without ys s)) ys (d ∷ [])
            ∙ ap (λ (t : List ℕ). t ++ (ys ++ d ∷ [])) (without-last d ys s distinct h);
      }

  -- What the loop leaves for the last append, that of `c`.
  record Ready (c k : ℕ) (w : World) : Type 0 where
    ys : List ℕ
    w' : World
    ran : raise_loop k c w ≡ some w'
    placed : Placed ys w'
    next : Next up ys c

  raise_loop-step :
      (k c d : ℕ) (w : World)
      → w.client ≡ store
      → climb (suc k) up c ≡ some d
      → raise_loop (suc k) c w ≡ raise_loop k c (stack_client_append w d)
  unfolding raise_loop
  raise_loop-step k c d w h e =
      let e' = ap (λ (cl : ℕ → Client). climb (suc k) (λ (x : ℕ). (cl x).transient_for) c) h ∙ e in
      rw (e', raise_loop) refl

  raise_loop-Ready :
      (k c : ℕ) (w : World) (ys : List ℕ) (d : ℕ)
      → Placed ys w
      → climb k up c ≡ some d
      → Next up ys d
      → Ready c k w
  unfolding raise_loop climb
  raise_loop-Ready zero c w ys d p e n = record {
    ys = ys;
    w' = w;
    ran = refl;
    placed = p;
    next = subst (Next up ys) (ground (arith, sym e)) n;
  }
  raise_loop-Ready (suc k) c w ys d p e n =
      let (x, a, b) = climb-suc up k c d e in
      let (j, r) = Next-Ends up ys d n in
      let rest =
        raise_loop-Ready k c (stack_client_append w d) (ys ++ d ∷ []) x
          (append-Placed ys d w (Next-fresh up ys d n) p) a (after (Next-Lineage up ys d n) r b) in
      record {
        ys = rest.ys;
        w' = rest.w';
        ran = raise_loop-step k c d w p.client e ∙ rest.ran;
        placed = rest.placed;
        next = rest.next;
      }

without-none : (s : List ℕ) → without [] s ≡ s
without-none [] = refl
without-none (x ∷ s) = ap (◌∷◌ x) (without-none s)

client_raise_eq :
    (host : Host) (w : World) (fuel n c : ℕ) (w' : World)
    → transient_depth fuel w c ≡ some n
    → raise_loop n c w ≡ some w'
    → client_raise host fuel c w ≡ some (emit host c raised (stack_client_append w' c))
unfolding client_raise
client_raise_eq host w fuel n c w' d r = rw (d, client_raise, r) refl

-- If the chain of `n` parents of a client ends and no client is in the stack twice, client_raise()
-- ends: the rest of the stack keeps its order, and above it stand the parents, each below its
-- child, and the client itself on top. Then the listeners are told.
pub client_raise-Lineage :
    (host : Host) (w : World) (n c : ℕ)
    → Nodup w.stack
    → Ends (parent w) n c
    → (xs : List ℕ) × (w' : World) × (client_raise host (suc n) c w ≡ some (emit host c raised w'))
      × Lineage (parent w) xs c
      × (w'.stack ≡ without xs w.stack ++ xs)
client_raise-Lineage host w n c distinct ends =
    let (d, e, root) = climb-Ends (parent w) n c ends in
    let r =
      raise_loop-Ready w.client w.stack distinct n c w [] d
        (record {
          client = refl;
          stack = sym (append-nil (without [] w.stack) ∙ without-none w.stack);
        })
        e (start refl root) in
    let last =
      append-Placed w.client w.stack distinct r.ys c r.w' (Next-fresh (parent w) r.ys c r.next)
        r.placed in
    (
      r.ys ++ c ∷ [],
      stack_client_append r.w' c,
      client_raise_eq host w (suc n) n c r.w' (transient_depth-Ends w ends) r.ran,
      Next-Lineage (parent w) r.ys c r.next,
      last.stack,
    )
