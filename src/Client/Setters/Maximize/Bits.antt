-- ===== src/Client/Setters/Maximize/Bits.antt =====
-- The states of maximization after a setter, and the properties that it notifies.
use somewm.Common.{
  ℕ, ◌≡◌, refl, sym, ap, ◌∙◌, inl, inr, Bool, true, false, ◌&&◌, not, List, [], ◌∷◌, ◌++◌, arith,
  Bool-cases, if◌then◌else◌, bool_eq, ◌==◌, ==_iff,
}
use somewm.World.{
  World, Client, Signal, Name, signal, set_client, request_geometry, property_maximized,
  property_maximized_horizontal, property_maximized_vertical,
}
use somewm.Stack.{stack_windows}
use somewm.Client.{Host, emit}
use somewm.Client.Setters.Maximize.{
  Maximized, Bit, bit_h, bit_v, bit_both, maximized_of, put, maximized_eq, next_maximized, notify,
  client_set_maximized_common,
}

-- The Lua handlers leave the three attributes of every client alone, and emit nothing themselves.
pub record IsModest (host : Host) : Type 0 where
  pub maximized :
      (s : Signal) (w : World) (a : ℕ)
      → maximized_of ((host.lua s w).client a) ≡ maximized_of (w.client a)
  pub emitted : (s : Signal) (w : World) → (host.lua s w).emitted ≡ w.emitted

-- The notification of one property, if it changed.
abbrev pub noted : Bool → Bool → ℕ → Name → List Signal
noted before now c n = if bool_eq before now then [] else signal c n ∷ []

-- The state of one property of a client.
abbrev pub state : Bit → Client → Bool
state bit_h x = x.maximized_horizontal
state bit_v x = x.maximized_vertical
state bit_both x = x.maximized

abbrev same_bit : Bit → Bit → Bool
same_bit bit_h bit_h = true
same_bit bit_v bit_v = true
same_bit bit_both bit_both = true
same_bit _ _ = false

-- What a client's state is to be once `val` is set to `s`. While the main loop does not run yet, a client
-- that would be maximized in both directions and not as a whole is maximized as a whole instead.
abbrev pub wanted : Bool → Bool → Bit → Client → Bit → Bool
wanted loop s val x b =
    let given = λ (d : Bit). if same_bit d val then s else state d x in
    if not loop && given bit_h && given bit_v && not (given bit_both)
    then same_bit b bit_both
    else given b

eq_maximized : (m n : Maximized) → maximized_eq m n ≡ true → m ≡ n
eq_maximized m n h = ground arith

module _ (host : Host) (modest : IsModest host) where
  emit-maximized :
      (c : ℕ) (n : Name) (w : World) (a : ℕ)
      → (maximized_of ((emit host c n w).client a) ≡ maximized_of (w.client a))
        × ((emit host c n w).emitted ≡ signal c n ∷ w.emitted)
  unfolding emit
  emit-maximized c n w a = (modest.maximized (signal c n) _ a, modest.emitted (signal c n) _)

  notify-maximized :
      (before now : Bool) (c : ℕ) (n : Name) (w : World) (a : ℕ)
      → (maximized_of ((notify host before now c n w).client a) ≡ maximized_of (w.client a))
        × ((notify host before now c n w).emitted ≡ noted before now c n ++ w.emitted)
  unfolding notify
  notify-maximized before now c n w a = elim (Bool-cases (bool_eq before now)) [
    | inl e ↦ rw e (refl, refl)
    | inr e ↦ rw e (emit-maximized c n w a)
  ]

  -- The states after the attributes are set to `m`, and what is emitted.
  changed :
      (c : ℕ) (m : Maximized) (w : World) (a : ℕ)
      → let current = maximized_of (w.client c) in
        let w0 = set_client w c (record (w.client c) {
          maximized_horizontal = m.h;
          maximized_vertical = m.v;
          maximized = m.both;
        }) in
        let w1 = emit host c request_geometry w0 in
        let w2 =
          notify host current.h
            (w1.client c).maximized_horizontal
            c
            property_maximized_horizontal
            w1 in
        let w3 =
          notify host current.v (w2.client c).maximized_vertical c property_maximized_vertical w2 in
        let w4 = notify host current.both (w3.client c).maximized c property_maximized w3 in
        (maximized_of (w4.client a) ≡ (if c == a then m else maximized_of (w.client a)))
        × (w4.emitted
            ≡ noted current.both m.both c property_maximized
              ++ (noted current.v m.v c property_maximized_vertical
                  ++ (noted current.h m.h c property_maximized_horizontal
                      ++ signal c request_geometry ∷ w.emitted)))
  changed c m w a =
      let current = maximized_of (w.client c) in
      let w0 = set_client w c (record (w.client c) {
        maximized_horizontal = m.h;
        maximized_vertical = m.v;
        maximized = m.both;
      }) in
      let w1 = emit host c request_geometry w0 in
      let e1 = emit-maximized c request_geometry w0 in
      let n1 = (w1.client c).maximized_horizontal in
      let w2 = notify host current.h n1 c property_maximized_horizontal w1 in
      let e2 = notify-maximized current.h n1 c property_maximized_horizontal w1 in
      let n2 = (w2.client c).maximized_vertical in
      let w3 = notify host current.v n2 c property_maximized_vertical w2 in
      let e3 = notify-maximized current.v n2 c property_maximized_vertical w2 in
      let n3 = (w3.client c).maximized in
      let e4 = notify-maximized current.both n3 c property_maximized w3 in
      let own : maximized_of (w0.client c) ≡ m = ground arith in
      let at1 : maximized_of (w1.client c) ≡ m = (e1 c).0 ∙ own in
      let at2 : maximized_of (w2.client c) ≡ m = (e2 c).0 ∙ at1 in
      let at3 : maximized_of (w3.client c) ≡ m = (e3 c).0 ∙ at2 in
      (
        (e4 a).0 ∙ (e3 a).0 ∙ (e2 a).0 ∙ (e1 a).0 ∙ ground arith,
        (e4 a).1
            ∙ rw
                (
                  ap (λ (k : Maximized). k.both) at3,
                  (e3 a).1,
                  ap (λ (k : Maximized). k.v) at2,
                  (e2 a).1,
                  ap (λ (k : Maximized). k.h) at1,
                  (e1 a).1,
                )
                refl,
      )

  -- By the states that the code computes.
  common_gives :
      (c : ℕ) (s : Bool) (val : Bit) (w : World) (a : ℕ)
      → let current = maximized_of (w.client c) in
        let next = next_maximized w.loop (put val s current) in
        let w' = client_set_maximized_common host c s val w in
        (maximized_of (w'.client a) ≡ (if c == a then next else maximized_of (w.client a)))
        × (w'.emitted ≡ (
            if maximized_eq current next
            then w.emitted
            else noted current.both next.both c property_maximized
              ++ (noted current.v next.v c property_maximized_vertical
                  ++ (noted current.h next.h c property_maximized_horizontal
                      ++ signal c request_geometry ∷ w.emitted))))
  unfolding client_set_maximized_common stack_windows
  common_gives c s val w a =
      let current = maximized_of (w.client c) in
      let next = next_maximized w.loop (put val s current) in
      elim (Bool-cases (maximized_eq current next)) [
        | inl e ↦ rw e (kept next (eq_maximized current next e), refl)
        | inr e ↦ rw e (changed c next w a)
      ]
    where
      kept :
          (n : Maximized)
          → maximized_of (w.client c) ≡ n
          → maximized_of (w.client a) ≡ (if c == a then n else maximized_of (w.client a))
      kept n e = elim (Bool-cases (c == a)) [
        | inl same ↦
            rw same (ap (λ (x : ℕ). maximized_of (w.client x)) (sym ((==_iff c a).0 same)) ∙ e)
        | inr other ↦ rw other refl
      ]

  -- The states that a call asks for are the ones that the code computes.
  wanted_next :
      (loop s : Bool) (val : Bit) (x : Client)
      → let next = next_maximized loop (put val s (maximized_of x)) in
        (wanted loop s val x bit_h ≡ next.h)
        × (wanted loop s val x bit_v ≡ next.v)
        × (wanted loop s val x bit_both ≡ next.both)
  unfolding next_maximized
  wanted_next loop s bit_h x = (ground arith, ground arith, ground arith)
  wanted_next loop s bit_v x = (ground arith, ground arith, ground arith)
  wanted_next loop s bit_both x = (ground arith, ground arith, ground arith)

  -- With Lua handlers that leave the three attributes of every client alone and emit nothing
  -- themselves: a setter changes the states of its own client only, to what is wanted; and it emits
  -- request::geometry, then the notification of each property that changed and of no other. If
  -- nothing would change it emits nothing.
  pub set_maximized_common-next :
      (c : ℕ) (s : Bool) (val : Bit) (w : World) (a : ℕ) (b : Bit)
      → let x = w.client c in
        let now = wanted w.loop s val x in
        let w' = client_set_maximized_common host c s val w in
        (state b (w'.client a) ≡ (if c == a then now b else state b (w.client a)))
        × (w'.emitted ≡ (
            if bool_eq (state bit_h x) (now bit_h)
              && bool_eq (state bit_v x) (now bit_v)
              && bool_eq (state bit_both x) (now bit_both)
            then w.emitted
            else noted (state bit_both x) (now bit_both) c property_maximized
              ++ (noted (state bit_v x) (now bit_v) c property_maximized_vertical
                  ++ (noted (state bit_h x) (now bit_h) c property_maximized_horizontal
                      ++ signal c request_geometry ∷ w.emitted))))
  set_maximized_common-next c s val w a b =
      let (h, v, both) = wanted_next w.loop s val (w.client c) in
      let (states, emitted) = common_gives c s val w a in
      (per_bit states b, rw (h, v, both) emitted)
    where
      per_bit :
          (maximized_of ((client_set_maximized_common host c s val w).client a) ≡ (
            if c == a
            then next_maximized w.loop (put val s (maximized_of (w.client c)))
            else maximized_of (w.client a)))
          → (b : Bit)
          → state b ((client_set_maximized_common host c s val w).client a)
            ≡ (if c == a then wanted w.loop s val (w.client c) b else state b (w.client a))
      per_bit e bit_h =
          let h = wanted_next w.loop s val (w.client c) in
          ground (arith, ap (λ (m : Maximized). m.h) e, h.0)
      per_bit e bit_v =
          let h = wanted_next w.loop s val (w.client c) in
          ground (arith, ap (λ (m : Maximized). m.v) e, h.1)
      per_bit e bit_both =
          let h = wanted_next w.loop s val (w.client c) in
          ground (arith, ap (λ (m : Maximized). m.both) e, h.2)
