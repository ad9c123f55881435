-- ===== src/Render/Pass/Sweep.antt =====
-- What the sweep keeps.
use somewm.Common.{
  ℕ, zero, suc, ◌+◌, ◌≤◌, ◌<◌, ◌≡◌, ◌≢◌, refl, sym, ap, ◌∙◌, inl, inr, Bool, true, false, none,
  some, List, [], ◌∷◌, ◌==◌, ==_iff, Bool-cases, Option-cases, some_eq, if◌then◌else◌, length,
  get_elem?, set_elem, arith,
}
use somewm.Render.{Rnode, RenderState}
use somewm.Render.Index.Built.{keys}
use somewm.Render.Pass.{keep, swap_remove, rnode_remove, sweep_from}
use somewm.Render.Pass.Nodes.{
  Live, Live-set_elem, Live-swap_remove, get_set_self, get_set_other, get-lt, length-set_elem,
  length-swap_remove, get-swap_remove,
}

-- The nodes before the index are of the frame.
pub Current : ℕ → ℕ → List Rnode → Type 0
Current gen i ns = (j : ℕ) (n : Rnode) → get_elem? ns j ≡ some n → j < i → n.gen ≡ gen

pub first_Current : (gen : ℕ) (ns : List Rnode) → Current gen 0 ns
unfolding Current
first_Current gen ns j n h l = absurd (omega arith)

-- After a sweep all nodes are of the frame, those that were are still there, and a sweep that
-- removed no node changed no key. The index is not touched.
pub record Swept (rs rs' : RenderState) (swept : Bool) : Type 0 where
  pub current : (j : ℕ) (n : Rnode) → get_elem? rs'.nodes j ≡ some n → n.gen ≡ rs.gen
  pub live : (key : ℕ) → Live rs.gen key rs.nodes → Live rs.gen key rs'.nodes
  pub same : swept ≡ false → keys rs'.nodes ≡ keys rs.nodes
  pub shorter : length rs'.nodes ≤ length rs.nodes
  pub gen : rs'.gen ≡ rs.gen
  pub map : rs'.map ≡ rs.map
  pub map_cap : rs'.map_cap ≡ rs.map_cap

keep-key : (declared : ℕ → Bool) (gen : ℕ) (n : Rnode) → (keep declared gen n).key ≡ n.key
unfolding keep
keep-key declared gen n = ground arith

keep-gen :
    (declared : ℕ → Bool) (gen : ℕ) (n : Rnode) → n.gen ≡ gen → (keep declared gen n).gen ≡ gen
unfolding keep
keep-gen declared gen n h = ground arith

pub keys-set_elem :
    (i : ℕ) (v n : Rnode) (ns : List Rnode)
    → get_elem? ns i ≡ some n
    → v.key ≡ n.key
    → keys (set_elem i v ns) ≡ keys ns
keys-set_elem i v n [] h e = absurd (ground arith)
keys-set_elem zero v n (x ∷ ns) h e =
    ap (λ (k : ℕ). k ∷ keys ns) (e ∙ ap (λ (m : Rnode). m.key) (sym (some_eq h)))
keys-set_elem (suc i) v n (x ∷ ns) h e =
    ap (λ (ks : List ℕ). x.key ∷ ks) (keys-set_elem i v n ns h e)

end :
    (i j : ℕ) (n : Rnode) (ns : List Rnode)
    → get_elem? ns i ≡ none
    → get_elem? ns j ≡ some n
    → j < i
end i j n [] e f = absurd (ground arith)
end zero j n (x ∷ ns) e f = absurd (ground arith)
end (suc i) zero n (x ∷ ns) e f = omega arith
end (suc i) (suc j) n (x ∷ ns) e f = omega (arith, end i j n ns e f)

-- A sweep that goes on with a node changed, or removed.
module _ (rs : RenderState) (i : ℕ) (n v : Rnode) (e : get_elem? rs.nodes i ≡ some n)
    (s : v.key ≡ n.key) (f : n.gen ≡ rs.gen → v.gen ≡ rs.gen) (retained swept_nodes : ℕ) where
  kept-Swept :
      (rs' : RenderState) (swept : Bool)
      → Swept (record rs { nodes = set_elem i v rs.nodes; retained = retained }) rs' swept
      → Swept rs rs' swept
  kept-Swept rs' swept r = record {
    current = r.current;
    live = λ key x. r.live key (Live-set_elem rs.gen key i v n rs.nodes e s f x);
    same = λ h. r.same h ∙ keys-set_elem i v n rs.nodes e s;
    shorter = omega (arith, r.shorter, length-set_elem i v rs.nodes);
    gen = r.gen;
    map = r.map;
    map_cap = r.map_cap;
  }

  removed-Swept :
      (rs' : RenderState) (swept : Bool)
      → swept ≡ true
      → v.gen ≢ rs.gen
      → Swept
          (record rs { nodes = swap_remove i (set_elem i v rs.nodes); swept = swept_nodes })
          rs'
          swept
      → Swept rs rs' swept
  removed-Swept rs' swept t d r =
      let there = get_set_self i v n rs.nodes e in
      record {
        current = r.current;
        live = λ key x. r.live key (
            Live-swap_remove rs.gen key i v (set_elem i v rs.nodes) there d
              (Live-set_elem rs.gen key i v n rs.nodes e s f x));
        same = λ h. absurd (ground (arith, t, h));
        shorter = omega (
          arith,
          r.shorter,
          length-set_elem i v rs.nodes,
          length-swap_remove i v (set_elem i v rs.nodes) there,
        );
        gen = r.gen;
        map = r.map;
        map_cap = r.map_cap;
      }

  kept-Current :
      v.gen ≡ rs.gen → Current rs.gen i rs.nodes → Current rs.gen (suc i) (set_elem i v rs.nodes)
  unfolding Current
  kept-Current g c j m h l = elim (Bool-cases (j == i)) [
    | inl y ↦
        ap (λ (x : Rnode). x.gen)
          (sym (
            some_eq (
              sym (get_set_self i v n rs.nodes e)
              ∙ ap (get_elem? (set_elem i v rs.nodes)) (sym ((==_iff j i).0 y))
              ∙ h)))
        ∙ g
    | inr y ↦
        c j m (sym (get_set_other i j v rs.nodes (λ q. absurd (ground arith))) ∙ h) (ground arith)
  ]

  removed-Current :
      Current rs.gen i rs.nodes → Current rs.gen i (swap_remove i (set_elem i v rs.nodes))
  unfolding Current
  removed-Current c j m h l =
      let there = get_set_self i v n rs.nodes e in
      c j m
        (sym (
            get-swap_remove i j v (set_elem i v rs.nodes) there
              (omega (arith, get-lt i v (set_elem i v rs.nodes) there))
              (λ q. absurd (omega (arith, q)))
            ∙ get_set_other i j v rs.nodes (λ q. absurd (omega (arith, q))))
          ∙ h)
        l

module _ (declared : ℕ → Bool) where
  -- A sweep that removed a node says so.
  sweep_from-true : (k i : ℕ) (rs : RenderState) → (sweep_from declared k i true rs).1 ≡ true
  unfolding sweep_from
  sweep_from-true zero i rs = refl
  sweep_from-true (suc k) i rs = elim (Option-cases (get_elem? rs.nodes i)) [
    | inl e ↦ rw (e, sweep_from) refl
    | inr (n, e) ↦ elim (Bool-cases ((keep declared rs.gen n).gen == rs.gen)) [
      | inl y ↦ rw (e, sweep_from) (rw y (sweep_from-true k (suc i) _))
      | inr y ↦ rw (e, sweep_from) (rw y (sweep_from-true k i _))
    ]
  ]

  -- What is shown of a sweep of so many rounds.
  Sweeps : ℕ → Type 0
  Sweeps k =
      (i : ℕ) (swept : Bool) (rs : RenderState)
      → length rs.nodes ≤ i + k
      → Current rs.gen i rs.nodes
      → Swept rs (sweep_from declared k i swept rs).0 (sweep_from declared k i swept rs).1

  module _ (k : ℕ) (rest : Sweeps k) (i : ℕ) (swept : Bool) (rs : RenderState) (n : Rnode)
      (e : get_elem? rs.nodes i ≡ some n) (l : length rs.nodes ≤ i + suc k)
      (c : Current rs.gen i rs.nodes) where
    v : Rnode
    v = keep declared rs.gen n

    next : RenderState
    next = record rs {
      nodes = set_elem i v rs.nodes;
      retained = (if v.retained then 1 else 0) + rs.retained;
    }

    gone : RenderState
    gone = rnode_remove i v (record rs { nodes = set_elem i v rs.nodes })

    kept :
        v.gen ≡ rs.gen
        → Swept rs
            (sweep_from declared k (suc i) swept next).0
            (sweep_from declared k (suc i) swept next).1
    unfolding Sweeps v next
    kept g =
        let s = keep-key declared rs.gen n in
        let f = keep-gen declared rs.gen n in
        kept-Swept rs i n v e s f next.retained 0 _ _ (
          rest (suc i) swept next (omega (arith, length-set_elem i v rs.nodes))
            (kept-Current rs i n v e s f 0 0 g c))

    removed :
        v.gen ≢ rs.gen
        → Swept rs (sweep_from declared k i true gone).0 (sweep_from declared k i true gone).1
    unfolding Sweeps v gone rnode_remove
    removed d =
        let s = keep-key declared rs.gen n in
        let f = keep-gen declared rs.gen n in
        let there = get_set_self i v n rs.nodes e in
        removed-Swept rs i n v e s f 0 gone.swept _ _ (sweep_from-true k i gone) d (
          rest i true gone
            (omega (
              arith,
              length-set_elem i v rs.nodes,
              length-swap_remove i v (set_elem i v rs.nodes) there,
            ))
            (removed-Current rs i n v e s f 0 0 c))

  pub sweep_from-Swept :
      (k i : ℕ) (swept : Bool) (rs : RenderState)
      → length rs.nodes ≤ i + k
      → Current rs.gen i rs.nodes
      → Swept rs (sweep_from declared k i swept rs).0 (sweep_from declared k i swept rs).1
  unfolding sweep_from Current rnode_remove Sweeps v next gone
  sweep_from-Swept zero i swept rs l c = record {
    current = λ j n e. c j n e (omega (arith, get-lt j n rs.nodes e));
    live = λ key x. x;
    same = λ h. refl;
    shorter = omega arith;
    gen = refl;
    map = refl;
    map_cap = refl;
  }
  sweep_from-Swept (suc k) i swept rs l c = elim (Option-cases (get_elem? rs.nodes i)) [
    | inl e ↦
        rw (e, sweep_from)
          (record {
            current = λ j n f. c j n f (end i j n rs.nodes e f);
            live = λ key x. x;
            same = λ h. refl;
            shorter = omega arith;
            gen = refl;
            map = refl;
            map_cap = refl;
          })
    | inr (n, e) ↦ elim (Bool-cases ((keep declared rs.gen n).gen == rs.gen)) [
      | inl y ↦
          rw (e, sweep_from)
            (rw y (kept k (sweep_from-Swept k) i swept rs n e l c ((==_iff _ _).0 y)))
      | inr y ↦
          rw (e, sweep_from)
            (rw y (removed k (sweep_from-Swept k) i swept rs n e l c (λ q. absurd (ground arith))))
    ]
  ]
