-- ===== src/Render/Pass/Declared.antt =====
-- What declaring the commands does to the nodes.
use somewm.Common.{
  ℕ, zero, suc, ◌+◌, ◌≤◌, ◌≡◌, refl, sym, ap, subst, ◌∙◌, inl, inr, true, false, none, some, List,
  [], ◌∷◌, ◌++◌, ◌==◌, ==_iff, Bool-cases, Option-cases, some_eq, length, length-append, get_elem?,
  set_elem, arith,
}
use mathlib.Core.List.{append-nil, append_assoc}
use somewm.Render.{Rnode, RenderState, rmap_get}
use somewm.Render.Index.Built.{keys, index_from}
use somewm.Render.Pass.{Realized, Command, key_of, rnode_add, mark, mark_at, declare_command}
use somewm.Render.Pass.Nodes.{
  Live, Live-append, Live-set_elem, get_set_self, get_last, length-set_elem,
}
use somewm.Render.Pass.Sweep.{keys-set_elem}

-- A step of the loop: what was of the frame still is, nodes come at the end only, and the index is
-- not touched.
pub record Declares (rs rs' : RenderState) : Type 0 where
  pub live : (key : ℕ) → Live rs.gen key rs.nodes → Live rs.gen key rs'.nodes
  pub more : (new : List ℕ) × (keys rs'.nodes ≡ keys rs.nodes ++ new)
  pub gen : rs'.gen ≡ rs.gen
  pub map : rs'.map ≡ rs.map
  pub map_cap : rs'.map_cap ≡ rs.map_cap

pub Declares-refl : (rs : RenderState) → Declares rs rs
Declares-refl rs = record {
  live = λ key x. x;
  more = ([], sym (append-nil (keys rs.nodes)));
  gen = refl;
  map = refl;
  map_cap = refl;
}

pub Declares-trans : (a b c : RenderState) → Declares a b → Declares b c → Declares a c
Declares-trans a b c x y = record {
  live = λ key h.
      subst (λ (g : ℕ). Live g key c.nodes) x.gen
        (y.live key (subst (λ (g : ℕ). Live g key b.nodes) (sym x.gen) (x.live key h)));
  more = (
    x.more.0 ++ y.more.0,
    y.more.1
        ∙ ap (λ (ks : List ℕ). ks ++ y.more.0) x.more.1
        ∙ append_assoc (keys a.nodes) x.more.0 y.more.0,
  );
  gen = y.gen ∙ x.gen;
  map = y.map ∙ x.map;
  map_cap = y.map_cap ∙ x.map_cap;
}

keys-get :
    (i key : ℕ) (ns : List Rnode)
    → get_elem? (keys ns) i ≡ some key
    → (n : Rnode) × (get_elem? ns i ≡ some n) × (n.key ≡ key)
keys-get i key [] h = absurd (ground arith)
keys-get zero key (x ∷ ns) h = (x, refl, some_eq h)
keys-get (suc i) key (x ∷ ns) h = keys-get i key ns h

get-append_left :
    (i key : ℕ) (ks ms : List ℕ) → get_elem? ks i ≡ some key → get_elem? (ks ++ ms) i ≡ some key
get-append_left i key [] ms h = absurd (ground arith)
get-append_left zero key (x ∷ ks) ms h = h
get-append_left (suc i) key (x ∷ ks) ms h = get-append_left i key ks ms h

index_from-get :
    (j key i : ℕ) (ks : List ℕ)
    → index_from j key ks ≡ some i
    → (d : ℕ) × (i ≡ j + d) × (get_elem? ks d ≡ some key)
index_from-get j key i [] h = absurd (ground arith)
index_from-get j key i (x ∷ ks) h = elim (Bool-cases (x == key)) [
  | inl e ↦ (0, omega (arith, some_eq (sym h ∙ here e)), ap some ((==_iff x key).0 e))
  | inr e ↦
      let (d, f, g) = index_from-get (suc j) key i ks (sym (later e) ∙ h) in
      (suc d, omega (arith, f), g)
]
  where
    here : (x == key) ≡ true → index_from j key (x ∷ ks) ≡ some j
    here e = rw e refl

    later : (x == key) ≡ false → index_from j key (x ∷ ks) ≡ index_from (suc j) key ks
    later e = rw e refl

pub found_at :
    (key i : ℕ) (ns : List Rnode)
    → index_from 0 key (keys ns) ≡ some i
    → (n : Rnode) × (get_elem? ns i ≡ some n) × (n.key ≡ key)
found_at key i ns h =
    let (d, e, g) = index_from-get 0 key i (keys ns) h in
    keys-get i key ns (ap (get_elem? (keys ns)) (omega (arith, e)) ∙ g)

keys-append : (ns : List Rnode) (n : Rnode) → keys (ns ++ n ∷ []) ≡ keys ns ++ n.key ∷ []
keys-append [] n = refl
keys-append (x ∷ ns) n = ap (λ (ks : List ℕ). x.key ∷ ks) (keys-append ns n)

pub rmap_get_same :
    (rs rs' : RenderState) (key : ℕ)
    → rs'.map ≡ rs.map
    → rs'.map_cap ≡ rs.map_cap
    → rmap_get rs' key ≡ rmap_get rs key
unfolding rmap_get
rmap_get_same rs rs' key e f = rw (e, f) refl

module _ (realize : Command → Rnode → Realized) where
  mark_at-Declares :
      (i : ℕ) (c : Command) (rs : RenderState) (n : Rnode)
      → get_elem? rs.nodes i ≡ some n
      → n.key ≡ key_of c
      → (rs' : RenderState) × (mark_at realize i c rs ≡ some rs')
        × (rs'.fades ≡ rs.fades)
        × (length rs'.nodes ≡ length rs.nodes)
        × Declares rs rs'
        × Live rs.gen (key_of c) rs'.nodes
  unfolding mark_at mark
  mark_at-Declares i c rs n e k =
      let v = mark realize rs.gen c n in
      (
        record rs { nodes = set_elem i v rs.nodes },
        rw (e, mark_at) refl,
        refl,
        length-set_elem i v rs.nodes,
        record {
          live = λ key x. Live-set_elem rs.gen key i v n rs.nodes e refl (λ g. refl) x;
          more = ([], keys-set_elem i v n rs.nodes e refl ∙ sym (append-nil (keys rs.nodes)));
          gen = refl;
          map = refl;
          map_cap = refl;
        },
        (i, v, get_set_self i v n rs.nodes e, k, refl),
      )

  -- A command finds its node, or gets a new one.
  pub declare_command-Declares :
      (rs1 rs : RenderState) (c : Command)
      → rmap_get rs1 (key_of c) ≡ some (index_from 0 (key_of c) (keys rs1.nodes))
      → Declares rs1 rs
      → (rs' : RenderState) × (declare_command realize c rs ≡ some rs')
        × (rs'.fades ≡ rs.fades)
        × (length rs'.nodes ≤ suc (length rs.nodes))
        × Declares rs rs'
        × Live rs.gen (key_of c) rs'.nodes
  unfolding declare_command
  declare_command-Declares rs1 rs c g d =
      elim (Option-cases (index_from 0 (key_of c) (keys rs1.nodes))) [
        | inl e ↦
            let added = rnode_add (key_of c) rs in
            let (rs', f, p, l, x, y) =
              mark_at-Declares (length rs.nodes) c added new (new_at) refl in
            (
              rs',
              rw (get ∙ ap some e, declare_command) f,
              p,
              omega (arith, l, length-append rs.nodes (new ∷ [])),
              Declares-trans rs added rs' adds x,
              y,
            )
        | inr (i, e) ↦
            let (n, at, k) = keys-get i (key_of c) rs.nodes (stands i e) in
            let (rs', f, p, l, x, y) = mark_at-Declares i c rs n at k in
            (rs', rw (get ∙ ap some e, declare_command) f, p, omega (arith, l), x, y)
      ]
    where
      get : rmap_get rs (key_of c) ≡ some (index_from 0 (key_of c) (keys rs1.nodes))
      get = rmap_get_same rs1 rs (key_of c) d.map d.map_cap ∙ g

      new : Rnode
      new = record {
        key = key_of c;
        gen = 0;
        node = none;
        enabled = false;
        borrowed = false;
        retained = false;
      }

      new_at : get_elem? (rnode_add (key_of c) rs).nodes (length rs.nodes) ≡ some new
      new_at = get_last new rs.nodes

      adds : Declares rs (rnode_add (key_of c) rs)
      adds = record {
        live = λ key x. Live-append rs.gen key rs.nodes (new ∷ []) x;
        more = (key_of c ∷ [], keys-append rs.nodes new);
        gen = refl;
        map = refl;
        map_cap = refl;
      }

      stands :
          (i : ℕ)
          → index_from 0 (key_of c) (keys rs1.nodes) ≡ some i
          → get_elem? (keys rs.nodes) i ≡ some (key_of c)
      stands i e =
          let (m, f, h) = index_from-get 0 (key_of c) i (keys rs1.nodes) e in
          ap (λ (ks : List ℕ). get_elem? ks i) d.more.1
          ∙ get-append_left i (key_of c) (keys rs1.nodes) d.more.0
              (ap (get_elem? (keys rs1.nodes)) (omega (arith, f)) ∙ h)
