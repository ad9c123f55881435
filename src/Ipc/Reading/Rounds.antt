-- ===== src/Ipc/Reading/Rounds.antt =====
-- The loop that takes the commands out of a client's buffer.
use mathlib.Core.List.{append_assoc, append-nil}
use somewm.Common.{
  ℕ, zero, suc, ◌+◌, ◌<◌, ◌≤◌, ◌≡◌, refl, sym, ap, ◌∙◌, subst, inl, inr, true, false, Option, none,
  some, List, [], ◌∷◌, ◌++◌, ◌==◌, ==_iff, ltb, Bool-cases, Option-cases, if◌then◌else◌, has,
  has-drop, length, length-drop, length-take_of_lt, take, drop, arith,
}
use somewm.Common.Text.{newline}
use somewm.Ipc.{
  Ipc, IpcClient, Peer, ◌>>=◌, set_ipc_client, ipc_process_command, ipc_dispatch_to_lua,
}
use somewm.Ipc.Mild.{Live, Mild-Live, plain, IsReliable, dispatch_to_lua-Safe}
use somewm.Ipc.Reading.{strchr, remove_command, take_command, take_commands}
use somewm.Ipc.Reading.Lines.{
  split, commands, commands-append, strchr-split, strchr-none, split-none,
}

-- The client at `p` is there, with this descriptor, this size of its buffer, and these bytes in it. No
-- pointer in the list of clients is to a freed one.
pub record Holds (p fd size : ℕ) (b : List ℕ) (s : Ipc) : Type 0 where
  pub c : IpcClient
  pub there : s.client p ≡ some c
  pub descriptor : c.fd ≡ fd
  pub buffer_size : c.buffer_size ≡ size
  pub buffer : c.buffer ≡ b
  pub buffer_used : c.buffer_used ≡ length b
  pub live : Live s s.ipc_clients

-- The commands as they are handed on.
abbrev pub from : ℕ → List (List ℕ) → List (ℕ × List ℕ)
from fd [] = []
from fd (l ∷ ls) = (fd, l) ∷ from fd ls

pub from-append : (fd : ℕ) (xs ys : List (List ℕ)) → from fd (xs ++ ys) ≡ from fd xs ++ from fd ys
from-append fd [] ys = refl
from-append fd (x ∷ xs) ys = ap (λ l. (fd, x) ∷ l) (from-append fd xs ys)

pub log-append :
    (fd : ℕ) (xs ys : List (List ℕ)) (a : List (ℕ × List ℕ)) {b c : List (ℕ × List ℕ)}
    → b ≡ a ++ from fd (commands xs)
    → c ≡ b ++ from fd (commands ys)
    → c ≡ a ++ from fd (commands (xs ++ ys))
log-append fd xs ys a h k =
    k
    ∙ ap (λ (l : List (ℕ × List ℕ)). l ++ from fd (commands ys)) h
    ∙ append_assoc a (from fd (commands xs)) (from fd (commands ys))
    ∙ ap (λ (l : List (ℕ × List ℕ)). a ++ l)
        (sym (ap (from fd) (commands-append xs ys) ∙ from-append fd (commands xs) (commands ys)))

-- The run ends with these bytes in the buffer, and has handed on these commands.
pub record Takes (p fd size : ℕ) (b : List ℕ) (ls : List (List ℕ)) (s : Ipc) (result : Option Ipc)
    : Type 0 where
  pub after : Ipc
  pub returned : result ≡ some after
  pub holds : Holds p fd size b after
  pub dispatched : after.dispatched ≡ s.dispatched ++ from fd (commands ls)

plain-some :
    (o : Option IpcClient) (c : IpcClient)
    → plain o ≡ plain (some c)
    → (d : IpcClient) × (o ≡ some d)
      × (d.fd ≡ c.fd)
      × (d.buffer_size ≡ c.buffer_size)
      × (d.buffer ≡ c.buffer)
      × (d.buffer_used ≡ c.buffer_used)
plain-some none c h = absurd (ground arith)
plain-some (some d) c h = (d, refl, ground arith, ground arith, ground arith, ground arith)

set_ipc_client-Live :
    (p : ℕ) (c : IpcClient) (s : Ipc) (ps : List ℕ) → Live s ps → Live (set_ipc_client p c s) ps
set_ipc_client-Live p c s [] l = tt
set_ipc_client-Live p c s (q ∷ ps) l = (
  elim (Bool-cases (q == p)) [ inl e ↦ rw e refl | inr e ↦ rw e l.0 ],
  set_ipc_client-Live p c s ps l.1,
)

pub set_ipc_client-Holds :
    (p : ℕ) (c : IpcClient) (b : List ℕ) (s : Ipc)
    → Live s s.ipc_clients
    → c.buffer ≡ b
    → c.buffer_used ≡ length b
    → Holds p c.fd c.buffer_size b (set_ipc_client p c s)
set_ipc_client-Holds p c b s l e u = record {
  c = c;
  there = rw ((==_iff p p).1 refl) refl;
  descriptor = refl;
  buffer_size = refl;
  buffer = e;
  buffer_used = u;
  live = set_ipc_client-Live p c s s.ipc_clients l;
}

module _ (peer : Peer) (reliable : IsReliable peer) (p fd size : ℕ) where
  process-Takes :
      (b : List ℕ) (a : ℕ) (cmd : List ℕ) (s : Ipc)
      → Holds p fd size b s
      → Takes p fd size b ((a ∷ cmd) ∷ []) s (ipc_process_command peer p (a ∷ cmd) s)
  unfolding ipc_process_command
  process-Takes b a cmd s h =
      let s0 = record s { dispatched = s.dispatched ++ (h.c.fd, a ∷ cmd) ∷ [] } in
      let safe = dispatch_to_lua-Safe peer reliable h.c.fd (a ∷ cmd) s0 h.live in
      let (d, there, descriptor, buffer_size, buffer, buffer_used) =
        plain-some (safe.after.client p) h.c (safe.mild.client p ∙ ap plain h.there) in
      subst (Takes p fd size b ((a ∷ cmd) ∷ []) s)
        (ap
          (λ (o : Option IpcClient). elim o [
            | none ↦ none
            | some c ↦
                ipc_dispatch_to_lua peer c.fd (a ∷ cmd)
                  (record s { dispatched = s.dispatched ++ (c.fd, a ∷ cmd) ∷ [] })
          ])
          (sym h.there))
        (record {
          after = safe.after;
          returned = safe.returned;
          holds = record {
            c = d;
            there = there;
            descriptor = descriptor ∙ h.descriptor;
            buffer_size = buffer_size ∙ h.buffer_size;
            buffer = buffer ∙ h.buffer;
            buffer_used = buffer_used ∙ h.buffer_used;
            live = Mild-Live s0 safe.after safe.mild h.live;
          };
          dispatched =
              safe.mild.dispatched ∙ ap (λ (f : ℕ). s.dispatched ++ (f, a ∷ cmd) ∷ []) h.descriptor;
        })

  -- A command that is not empty is processed before its bytes go.
  processed :
      (b l : List ℕ) (s : Ipc)
      → Holds p fd size b s
      → Takes p fd size b
          (l ∷ [])
          s
          (if ltb 0 (length l) then ipc_process_command peer p l s else some s)
  processed b [] s h = record {
    after = s;
    returned = refl;
    holds = h;
    dispatched = sym (append-nil s.dispatched);
  }
  processed b (a ∷ l) s h = rw (positive (length l)) (process-Takes b a l s h)
    where
      positive : (n : ℕ) → ltb 0 (suc n) ≡ true
      positive n = ground arith

  removed :
      (n : ℕ) (b : List ℕ) (ls : List (List ℕ)) (s s1 : Ipc)
      → Holds p fd size b s1
      → s1.dispatched ≡ s.dispatched ++ from fd (commands ls)
      → n < length b
      → Takes p fd size (drop (suc n) b) ls s (elim (s1.client p) [
        | none ↦ none
        | some c1 ↦ some (set_ipc_client p (remove_command n c1) s1)
      ])
  unfolding remove_command
  removed n b ls s s1 h d lt =
      let c' = remove_command n h.c in
      let e : n + 1 ≡ suc n = omega arith in
      let buffer : c'.buffer ≡ drop (suc n) b = rw (e, h.buffer) refl in
      let used : c'.buffer_used ≡ length (drop (suc n) b) =
        omega (arith, h.buffer_used, length-drop (suc n) b) in
      let holds : Holds p fd size (drop (suc n) b) (set_ipc_client p c' s1) =
        subst (λ (f : ℕ). Holds p f size (drop (suc n) b) (set_ipc_client p c' s1)) h.descriptor
          (subst (λ (k : ℕ). Holds p h.c.fd k (drop (suc n) b) (set_ipc_client p c' s1))
            h.buffer_size (set_ipc_client-Holds p c' (drop (suc n) b) s1 h.live buffer used)) in
      subst (Takes p fd size (drop (suc n) b) ls s)
        (ap
          (λ (o : Option IpcClient). elim o [
            | none ↦ none
            | some c1 ↦ some (set_ipc_client p (remove_command n c1) s1)
          ])
          (sym h.there))
        (record { after = set_ipc_client p c' s1; returned = refl; holds = holds; dispatched = d })

  take_command-Takes :
      (n : ℕ) (b : List ℕ) (s : Ipc) (h : Holds p fd size b s)
      → n < length b
      → Takes p fd size (drop (suc n) b) (take n b ∷ []) s (take_command peer p n h.c s)
  unfolding take_command
  take_command-Takes n b s h lt =
      let run = processed b (take n b) s h in
      let cleared = removed n b (take n b ∷ []) s run.after run.holds run.dispatched lt in
      let e : (if ltb 0 n then ipc_process_command peer p (take n h.c.buffer) s else some s)
          ≡ some run.after =
        rw h.buffer (
          subst
            (λ (k : ℕ).
              (if ltb 0 k then ipc_process_command peer p (take n b) s else some s)
              ≡ some run.after)
            (length-take_of_lt n b lt) run.returned) in
      subst (Takes p fd size (drop (suc n) b) (take n b ∷ []) s)
        (ap
          (λ (o : Option Ipc). o >>= λ (s1 : Ipc). elim (s1.client p) [
            | none ↦ none
            | some c1 ↦ some (set_ipc_client p (remove_command n c1) s1)
          ])
          (sym e))
        cleared

  Takes-trans :
      (b b' : List ℕ) (xs ys : List (List ℕ)) (s : Ipc) (r r' : Option Ipc)
      → (one : Takes p fd size b xs s r) → Takes p fd size b' ys one.after r'
      → Takes p fd size b' (xs ++ ys) s r'
  Takes-trans b b' xs ys s r r' one two = record {
    after = two.after;
    returned = two.returned;
    holds = two.holds;
    dispatched = log-append fd xs ys s.dispatched one.dispatched two.dispatched;
  }

  unrolled :
      (k : ℕ) (b : List ℕ) (s : Ipc) (h : Holds p fd size b s)
      → take_commands peer (suc k) p s ≡ (elim (strchr newline b) [
        | none ↦ some s
        | some n ↦ take_command peer p n h.c s >>= take_commands peer k p
      ])
  unfolding take_commands
  unrolled k b s h =
      ap
        (λ (o : Option IpcClient). elim o [
          | none ↦ none
          | some c ↦ elim (strchr newline c.buffer) [
            | none ↦ some s
            | some n ↦ take_command peer p n c s >>= take_commands peer k p
          ]
        ])
        h.there
      ∙ ap
          (λ (x : List ℕ). elim (strchr newline x) [
            | none ↦ some s
            | some n ↦ take_command peer p n h.c s >>= take_commands peer k p
          ])
          h.buffer

  -- Enough rounds take all complete lines.
  pub take_commands-Takes :
      (k : ℕ) (b : List ℕ) (s : Ipc)
      → has 0 b ≡ false
      → length b ≤ k
      → Holds p fd size b s
      → Takes p fd size (split [] b).1 (split [] b).0 s (take_commands peer k p s)
  unfolding take_commands
  take_commands-Takes zero [] s z le h = record {
    after = s;
    returned = refl;
    holds = h;
    dispatched = sym (append-nil s.dispatched);
  }
  take_commands-Takes zero (x ∷ b) s z le h = absurd (omega arith)
  take_commands-Takes (suc k) b s z le h = elim (Option-cases (strchr newline b)) [
    | inl e ↦
        let whole = split-none [] b (strchr-none b z e) in
        let idle : take_commands peer (suc k) p s ≡ some s = unrolled k b s h ∙ rw e refl in
        rw (whole, idle)
          (record {
            after = s;
            returned = refl;
            holds = h;
            dispatched = sym (append-nil s.dispatched);
          })
    | inr (n, e) ↦
        let (lt, whole) = strchr-split b n e in
        let one = take_command-Takes n b s h lt in
        let b' = drop (suc n) b in
        let two =
          take_commands-Takes k b' one.after (has-drop 0 (suc n) b z)
            (omega (arith, length-drop (suc n) b)) one.holds in
        let busy : take_commands peer (suc k) p s ≡ take_commands peer k p one.after =
          unrolled k b s h ∙ rw (e, one.returned) refl in
        rw (whole, busy)
          (Takes-trans b' (split [] b').1 (take n b ∷ []) (split [] b').0 s _ _ one two)
  ]
