-- ===== src/Render/Pass/Nodes.antt =====
-- The nodes under a change of one, an addition and a removal.
use somewm.Common.{
  ℕ, zero, suc, ◌+◌, ◌-◌, ◌<◌, ◌≡◌, ◌≢◌, refl, sym, ap, ◌∙◌, inl, inr, some, List, [], ◌∷◌, ◌++◌,
  ◌==◌, ==_iff, Bool-cases, some_eq, length, get_elem?, set_elem, arith,
}
use somewm.Render.{Rnode}
use somewm.Render.Pass.{drop_last, swap_remove}

pub get_set_self :
    (i : ℕ) (v n : Rnode) (ns : List Rnode)
    → get_elem? ns i ≡ some n
    → get_elem? (set_elem i v ns) i ≡ some v
get_set_self i v n [] h = absurd (ground arith)
get_set_self zero v n (x ∷ ns) h = refl
get_set_self (suc i) v n (x ∷ ns) h = get_set_self i v n ns h

pub get_set_other :
    (i j : ℕ) (v : Rnode) (ns : List Rnode) → j ≢ i → get_elem? (set_elem i v ns) j ≡ get_elem? ns j
get_set_other i j v [] d = refl
get_set_other zero zero v (x ∷ ns) d = absurd (d refl)
get_set_other zero (suc j) v (x ∷ ns) d = refl
get_set_other (suc i) zero v (x ∷ ns) d = refl
get_set_other (suc i) (suc j) v (x ∷ ns) d = get_set_other i j v ns (λ e. d (ap suc e))

pub length-set_elem : (i : ℕ) (v : Rnode) (ns : List Rnode) → length (set_elem i v ns) ≡ length ns
length-set_elem i v [] = refl
length-set_elem zero v (x ∷ ns) = refl
length-set_elem (suc i) v (x ∷ ns) = ap suc (length-set_elem i v ns)

pub get-lt : (i : ℕ) (n : Rnode) (ns : List Rnode) → get_elem? ns i ≡ some n → i < length ns
get-lt i n [] h = absurd (ground arith)
get-lt zero n (x ∷ ns) h = ground arith
get-lt (suc i) n (x ∷ ns) h = ground (arith, get-lt i n ns h)

pub lt-get : (i : ℕ) (ns : List Rnode) → i < length ns → (n : Rnode) × (get_elem? ns i ≡ some n)
lt-get i [] h = absurd (omega arith)
lt-get zero (x ∷ ns) h = (x, refl)
lt-get (suc i) (x ∷ ns) h = lt-get i ns (omega arith)

get-append :
    (i : ℕ) (n : Rnode) (ns ms : List Rnode)
    → get_elem? ns i ≡ some n
    → get_elem? (ns ++ ms) i ≡ some n
get-append i n [] ms h = absurd (ground arith)
get-append zero n (x ∷ ns) ms h = h
get-append (suc i) n (x ∷ ns) ms h = get-append i n ns ms h

pub get_last : (v : Rnode) (ns : List Rnode) → get_elem? (ns ++ v ∷ []) (length ns) ≡ some v
get_last v [] = refl
get_last v (x ∷ ns) = get_last v ns

get-drop_last :
    (j : ℕ) (ns : List Rnode) → j + 1 < length ns → get_elem? (drop_last ns) j ≡ get_elem? ns j
unfolding drop_last
get-drop_last j [] h = refl
get-drop_last j (x ∷ []) h = absurd (omega arith)
get-drop_last zero (x ∷ y ∷ ns) h = refl
get-drop_last (suc j) (x ∷ y ∷ ns) h = get-drop_last j (y ∷ ns) (omega arith)

length-drop_last : (ns : List Rnode) → length (drop_last ns) ≡ length ns - 1
unfolding drop_last
length-drop_last [] = omega arith
length-drop_last (x ∷ []) = omega arith
length-drop_last (x ∷ y ∷ ns) = omega (arith, length-drop_last (y ∷ ns))

-- A node of the key that is of the frame.
abbrev pub Live : ℕ → ℕ → List Rnode → Type 0
Live gen key ns = (j : ℕ) × (n : Rnode) × (get_elem? ns j ≡ some n) × (n.key ≡ key) × (n.gen ≡ gen)

pub Live-append : (gen key : ℕ) (ns ms : List Rnode) → Live gen key ns → Live gen key (ns ++ ms)
Live-append gen key ns ms (j, n, h, k, g) = (j, n, get-append j n ns ms h, k, g)

pub Live-set_elem :
    (gen key i : ℕ) (v n : Rnode) (ns : List Rnode)
    → get_elem? ns i ≡ some n
    → v.key ≡ n.key
    → (n.gen ≡ gen → v.gen ≡ gen)
    → Live gen key ns
    → Live gen key (set_elem i v ns)
Live-set_elem gen key i v n ns e s f (j, m, h, k, g) = elim (Bool-cases (j == i)) [
  | inl y ↦
      let same = some_eq (sym e ∙ ap (get_elem? ns) (sym ((==_iff j i).0 y)) ∙ h) in
      (
        i,
        v,
        get_set_self i v n ns e,
        s ∙ ap (λ (x : Rnode). x.key) same ∙ k,
        f (ap (λ (x : Rnode). x.gen) same ∙ g),
      )
  | inr y ↦ (j, m, get_set_other i j v ns (λ q. absurd (ground arith)) ∙ h, k, g)
]

-- The last node takes the place of the one that goes.
pub length-swap_remove :
    (i : ℕ) (n : Rnode) (ns : List Rnode)
    → get_elem? ns i ≡ some n
    → length (swap_remove i ns) ≡ length ns - 1
unfolding swap_remove
length-swap_remove i n ns e =
    let (l, f) = lt-get (length ns - 1) ns (omega (arith, get-lt i n ns e)) in
    rw (f, swap_remove)
      (length-drop_last (set_elem i l ns) ∙ ap (λ a. a - 1) (length-set_elem i l ns))

pub get-swap_remove :
    (i j : ℕ) (n : Rnode) (ns : List Rnode)
    → get_elem? ns i ≡ some n
    → j + 1 < length ns
    → j ≢ i
    → get_elem? (swap_remove i ns) j ≡ get_elem? ns j
unfolding swap_remove
get-swap_remove i j n ns e h d =
    let (l, f) = lt-get (length ns - 1) ns (omega (arith, get-lt i n ns e)) in
    rw (f, swap_remove)
      (get-drop_last j (set_elem i l ns) (rw (length-set_elem i l ns) h) ∙ get_set_other i j l ns d)

get-swap_remove_self :
    (i : ℕ) (n : Rnode) (ns : List Rnode)
    → get_elem? ns i ≡ some n
    → i + 1 < length ns
    → get_elem? (swap_remove i ns) i ≡ get_elem? ns (length ns - 1)
unfolding swap_remove
get-swap_remove_self i n ns e h =
    let (l, f) = lt-get (length ns - 1) ns (omega (arith, get-lt i n ns e)) in
    rw (f, swap_remove)
      (get-drop_last i (set_elem i l ns) (rw (length-set_elem i l ns) h) ∙ get_set_self i l n ns e)

pub Live-swap_remove :
    (gen key i : ℕ) (n : Rnode) (ns : List Rnode)
    → get_elem? ns i ≡ some n
    → n.gen ≢ gen
    → Live gen key ns
    → Live gen key (swap_remove i ns)
Live-swap_remove gen key i n ns e d (j, m, h, k, g) = elim (Bool-cases (j + 1 == length ns)) [
  | inr y ↦ (j, m, get-swap_remove i j n ns e (ground (arith, get-lt j m ns h)) other ∙ h, k, g)
  | inl y ↦ (
    i,
    m,
    get-swap_remove_self i n ns e (ground (arith, get-lt i n ns e, other))
        ∙ ap (get_elem? ns) (ground arith)
        ∙ h,
    k,
    g,
  )
]
  where
    other : j ≢ i
    other q = d (ap (λ (x : Rnode). x.gen) (some_eq (sym e ∙ ap (get_elem? ns) (sym q) ∙ h)) ∙ g)
