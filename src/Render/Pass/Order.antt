-- ===== src/Render/Pass/Order.antt =====
-- The order of a pass names commands of the pass only, and after a pass each has its node.
use somewm.Common.{
  ℕ, ◌≡◌, sym, subst, ◌∙◌, inl, inr, true, false, not, ◌&&◌, ◌||◌, List, [], ◌∷◌, ◌++◌, ◌==◌,
  ==_iff, Bool-cases, if◌then◌else◌, map, has, has-append, arith,
}
use somewm.Render.Pass.{Command, key_of, rectangle, image, Build, add_build, build_all, order_of}

-- What was built so far is of the keys, or none.
record IsOf (ks : List ℕ) (b : Build) : Type 0 where
  pub rectangle :
      (key : ℕ)
      → has key (if b.backdrop_rectangle == 0 then [] else b.backdrop_rectangle ∷ []) ≡ true
      → has key ks ≡ true
  pub image :
      (key : ℕ)
      → has key (if b.backdrop_image == 0 then [] else b.backdrop_image ∷ []) ≡ true
      → has key ks ≡ true
  pub build : (key : ℕ) → has key b.build ≡ true → has key ks ≡ true

single : (a key : ℕ) → has key (if a == 0 then [] else a ∷ []) ≡ true → (a == key) ≡ true
single a key h = ground arith

add_build-IsOf :
    (output_id : ℕ) (c : Command) (ks : List ℕ) (b : Build)
    → has (key_of c) ks ≡ true
    → IsOf ks b
    → IsOf ks (add_build output_id c b)
unfolding add_build
add_build-IsOf output_id c ks b h o =
    elim (Bool-cases ((not (output_id == 0) && (c.id == output_id)) && (c.type == rectangle))) [
      | inl e ↦ rw e (record {
        rectangle = λ key x.
            subst (λ (k : ℕ). has k ks ≡ true) ((==_iff (key_of c) key).0 (single (key_of c) key x))
              h;
        image = o.image;
        build = o.build;
      })
      | inr e ↦
          elim (Bool-cases ((not (output_id == 0) && (c.id == output_id)) && (c.type == image))) [
            | inl f ↦
                rw (e, f)
                  (record {
                    rectangle = o.rectangle;
                    image = λ key x.
                        subst (λ (k : ℕ). has k ks ≡ true)
                          ((==_iff (key_of c) key).0 (single (key_of c) key x)) h;
                    build = o.build;
                  })
            | inr f ↦ rw (e, f) (record { rectangle = o.rectangle; image = o.image; build = added })
          ]
    ]
  where
    added : (key : ℕ) → has key (b.build ++ key_of c ∷ []) ≡ true → has key ks ≡ true
    added key x = elim (Bool-cases (has key b.build)) [
      | inl e ↦ o.build key e
      | inr e ↦
          subst (λ (k : ℕ). has k ks ≡ true)
            (last key e (sym (has-append key b.build (key_of c ∷ [])) ∙ x)) h
    ]
      where
        last :
            (key : ℕ)
            → has key b.build ≡ false
            → (has key b.build || has key (key_of c ∷ [])) ≡ true
            → key_of c ≡ key
        last key e x = ground arith

build_all-IsOf :
    (output_id : ℕ) (ks : List ℕ) (cs : List Command) (b : Build)
    → ((key : ℕ) → has key (map key_of cs) ≡ true → has key ks ≡ true)
    → IsOf ks b
    → IsOf ks (build_all output_id cs b)
unfolding build_all
build_all-IsOf output_id ks [] b h o = o
build_all-IsOf output_id ks (c ∷ cs) b h o =
    build_all-IsOf output_id ks cs (add_build output_id c b) (λ key x. h key (ground arith))
      (add_build-IsOf output_id c ks b (h (key_of c) (ground arith)) o)

IsOf-order :
    (ks : List ℕ) (b : Build) (key : ℕ)
    → IsOf ks b
    → has key (order_of b) ≡ true
    → has key ks ≡ true
unfolding order_of
IsOf-order ks b key o h = elim (Bool-cases (has key r)) [
  | inl e ↦ o.rectangle key e
  | inr e ↦ elim (Bool-cases (has key i)) [
    | inl f ↦ o.image key f
    | inr f ↦
        o.build key (
          ground (arith, e, f, sym (has-append key r (i ++ b.build)) ∙ h, has-append key i b.build))
  ]
]
  where
    r : List ℕ
    r = if b.backdrop_rectangle == 0 then [] else b.backdrop_rectangle ∷ []

    i : List ℕ
    i = if b.backdrop_image == 0 then [] else b.backdrop_image ∷ []

pub has-order_of :
    (output_id : ℕ) (cs : List Command) (key : ℕ)
    → has key (
        order_of (
          build_all output_id cs
            (record { backdrop_rectangle = 0; backdrop_image = 0; build = [] })))
      ≡ true
    → has key (map key_of cs) ≡ true
unfolding order_of
has-order_of output_id cs key h =
    IsOf-order (map key_of cs) _ key
      (build_all-IsOf output_id (map key_of cs) cs _ (λ k x. x) empty) h
  where
    empty : IsOf (map key_of cs) (record { backdrop_rectangle = 0; backdrop_image = 0; build = [] })
    empty = record {
      rectangle = λ k x. absurd (ground arith);
      image = λ k x. absurd (ground arith);
      build = λ k x. absurd (ground arith);
    }
