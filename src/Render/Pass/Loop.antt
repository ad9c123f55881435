-- ===== src/Render/Pass/Loop.antt =====
-- The loop of a pass over the commands: when it aborts, and what is declared else.
use somewm.Common.{
  ℕ, suc, ◌+◌, ◌≤◌, ◌≡◌, refl, sym, subst, ◌⊎◌, inl, inr, Bool, true, false, Option, none, some,
  List, [], ◌∷◌, ◌==◌, ==_iff, Bool-cases, Option-cases, length, map, has, arith,
}
use somewm.Render.{Rnode, Fade, RenderState, rmap_get}
use somewm.Render.Index.Built.{keys, index_from}
use somewm.Render.Pass.{Realized, Command, key_of, declare_all, open_fade, end_command}
use somewm.Render.Pass.Nodes.{Live}
use somewm.Render.Pass.Declared.{Declares, Declares-refl, Declares-trans, declare_command-Declares}

Declares-fades :
    (rs1 rs : RenderState) (fades : List Fade)
    → Declares rs1 rs
    → Declares rs1 (record rs { fades = fades })
Declares-fades rs1 rs fades d = record {
  live = d.live;
  more = d.more;
  gen = d.gen;
  map = d.map;
  map_cap = d.map_cap;
}

module _ (supported : Command → Bool) where
  -- Whether the loop aborts: at a new fade whose tint is not supported, at the end of a fade that is
  -- not open, or at a type that no case handles.
  abbrev pub aborts : List Fade → List Command → Bool
  aborts fades [] = false
  aborts fades (c ∷ cs) = elim (open_fade supported c fades) [
    | none ↦ true
    | some fades1 ↦ elim (end_command c fades1) [ none ↦ true | some fades2 ↦ aborts fades2 cs ]
  ]

module _ (supported : Command → Bool) (realize : Command → Rnode → Realized) where
  -- All commands have a node of the frame then.
  pub record AllDeclared (cs : List Command) (rs rs' : RenderState) : Type 0 where
    pub declares : Declares rs rs'
    pub longer : length rs'.nodes ≤ length rs.nodes + length cs
    pub live : (key : ℕ) → has key (map key_of cs) ≡ true → Live rs.gen key rs'.nodes

  AllDeclared-cons :
      (c : Command) (cs : List Command) (rs rs1 rs' : RenderState)
      → length rs1.nodes ≤ suc (length rs.nodes)
      → Declares rs rs1
      → Live rs.gen (key_of c) rs1.nodes
      → AllDeclared cs rs1 rs'
      → AllDeclared (c ∷ cs) rs rs'
  AllDeclared-cons c cs rs rs1 rs' one x y all = record {
    declares = Declares-trans rs rs1 rs' x all.declares;
    longer = omega (arith, all.longer, one);
    live = λ key h. elim (Bool-cases (key_of c == key)) [
      | inl e ↦
          subst (λ (k : ℕ). Live rs.gen k rs'.nodes) ((==_iff (key_of c) key).0 e)
            (subst (λ (n : ℕ). Live n (key_of c) rs'.nodes) x.gen
              (all.declares.live (key_of c)
                (subst (λ (n : ℕ). Live n (key_of c) rs1.nodes) (sym x.gen) y)))
      | inr e ↦ subst (λ (n : ℕ). Live n key rs'.nodes) x.gen (all.live key (ground arith))
    ];
  }

  -- The loop aborts, or all commands are declared.
  abbrev pub Ends : List Command → RenderState → Option (Option RenderState) → Type 0
  Ends cs rs r =
      ((aborts supported rs.fades cs ≡ true) × (r ≡ some none))
      ⊎ ((aborts supported rs.fades cs ≡ false)
          × ((rs' : RenderState) × (r ≡ some (some rs')) × AllDeclared cs rs rs'))

  pub declare_all-Declares :
      (rs1 rs : RenderState) (cs : List Command)
      → ((key : ℕ) → rmap_get rs1 key ≡ some (index_from 0 key (keys rs1.nodes)))
      → Declares rs1 rs
      → Ends cs rs (declare_all supported realize cs rs)
  unfolding declare_all
  declare_all-Declares rs1 rs [] g d = inr (
    refl,
    (
      rs,
      refl,
      record {
        declares = Declares-refl rs;
        longer = omega arith;
        live = λ key h. absurd (ground arith);
      },
    ),
  )
  declare_all-Declares rs1 rs (c ∷ cs) g d = elim (Option-cases (open_fade supported c rs.fades)) [
    | inl e ↦ rw (e, declare_all, aborts) (inl (refl, refl))
    | inr (fades, e) ↦
        let rs0 = record rs { fades = fades } in
        let d0 = Declares-fades rs1 rs fades d in
        let (rs2, f, p, one, x, y) = declare_command-Declares realize rs1 rs0 c (g (key_of c)) d0 in
        elim (Option-cases (end_command c fades)) [
          | inl h ↦ rw (e, declare_all, aborts) (rw (f, p, h) (inl (refl, refl)))
          | inr (left, h) ↦
              let rs3 = record rs2 { fades = left } in
              rw (e, declare_all, aborts)
                (rw (f, p, h)
                  (later rs3 (declare_all supported realize cs rs3) one
                    (Declares-fades rs rs2 left (from rs2 x)) y
                    (declare_all-Declares rs1 rs3 cs g
                      (Declares-trans rs1 rs0 rs3 d0 (Declares-fades rs0 rs2 left x)))))
        ]
  ]
    where
      from :
          {fades : List Fade} (rs2 : RenderState)
          → Declares (record rs { fades = fades }) rs2
          → Declares rs rs2
      from rs2 x = record {
        live = x.live;
        more = x.more;
        gen = x.gen;
        map = x.map;
        map_cap = x.map_cap;
      }

      later :
          (rs3 : RenderState) (r : Option (Option RenderState))
          → length rs3.nodes ≤ suc (length rs.nodes)
          → Declares rs rs3
          → Live rs.gen (key_of c) rs3.nodes
          → Ends cs rs3 r
          → ((aborts supported rs3.fades cs ≡ true) × (r ≡ some none))
            ⊎ ((aborts supported rs3.fades cs ≡ false)
                × ((rs' : RenderState) × (r ≡ some (some rs')) × AllDeclared (c ∷ cs) rs rs'))
      later rs3 r one x y (inl h) = inl h
      later rs3 r one x y (inr (a, (rs', e, all))) =
          inr (a, (rs', e, AllDeclared-cons c cs rs rs3 rs' one x y all))
