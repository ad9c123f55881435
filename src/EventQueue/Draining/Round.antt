-- ===== src/EventQueue/Draining/Round.antt =====
-- One round of some_event_queue_drain(): the event is emitted, what its handlers queue goes to the end,
-- and its references are given back.
use mathlib.Core.List.{append-nil, append_assoc}
use somewm.Common.{
  ℕ, ◌≡◌, refl, sym, subst, ◌∙◌, ap, true, Option, some, none, List, [], ◌∷◌, ◌++◌, arith, has,
  length, get_elem?, drop, has-append, All, map,
}
use somewm.EventQueue.{Value, Registry, Event, Message, Call, message}
use somewm.EventQueue.Ledger.{
  Ledger, Same, Ledger-cleanup, refs, all_refs, messages, messages-Same, all_refs-append,
}
use somewm.EventQueue.Push.{IsPlain, asked, Adds, Adds-none, perform_all-Adds}
use somewm.EventQueue.Draining.{Drain, dispatch, drain_event}

module _ {U : Type 0} (handle : U → Message → U × List Call) where
  -- What the handlers of a list of signals do to their state, which signals are emitted, and which
  -- calls of the queue the handlers make.
  pub record Outcome : Type 0 where
    pub user : U
    pub sent : List Message
    pub calls : List Call

  abbrev pub run : U → List (Option Message) → Outcome
  run u [] = record { user = u; sent = []; calls = [] }
  run u (none ∷ ms) = run u ms
  run u (some m ∷ ms) =
      let (u', calls) = handle u m in
      let o = run u' ms in record { user = o.user; sent = m ∷ o.sent; calls = calls ++ o.calls }

pub get_elem?-append {ℓ} :
    {A : Type ℓ} (xs : List A) (y : A) (ys : List A) → get_elem? (xs ++ y ∷ ys) (length xs) ≡ some y
get_elem?-append [] y ys = refl
get_elem?-append (x ∷ xs) y ys = get_elem?-append xs y ys

pub drop-append {ℓ} : {A : Type ℓ} (xs ys : List A) → drop (length xs) (xs ++ ys) ≡ ys
drop-append [] ys = refl
drop-append (x ∷ xs) ys = drop-append xs ys

pub map-append' : (cs ds : List Call) → map asked (cs ++ ds) ≡ map asked cs ++ map asked ds
map-append' [] ds = refl
map-append' (c ∷ cs) ds = ap (◌∷◌ (asked c)) (map-append' cs ds)

-- What handlers do with one signal more.
pub run_then :
    {U : Type 0} (handle : U → Message → U × List Call) (u : U) (m : Option Message)
    (ms : List (Option Message))
    → let o = run handle u (m ∷ []) in
      let o' = run handle o.user ms in
      ((run handle u (m ∷ ms)).user ≡ o'.user)
      × ((run handle u (m ∷ ms)).sent ≡ o.sent ++ o'.sent)
      × ((run handle u (m ∷ ms)).calls ≡ o.calls ++ o'.calls)
run_then handle u none ms = (refl, refl, refl)
run_then handle u (some m) ms = (refl, refl, rw (append-nil (handle u m).1) refl)

has_rest : (r : ℕ) (p q t : List ℕ) → has r (p ++ q) ≡ true → has r (p ++ (q ++ t)) ≡ true
has_rest r p q t h = ground (arith, has-append r p q, has-append r p (q ++ t), has-append r q t)

has_all : (r : ℕ) (e p q : List ℕ) → has r (p ++ q) ≡ true → has r ((e ++ p) ++ q) ≡ true
has_all r e p q h = ground (arith, has-append r p q, has-append r (e ++ p) q, has-append r e p)

has_last : (r : ℕ) (p q t : List ℕ) → has r t ≡ true → has r (p ++ (q ++ t)) ≡ true
has_last r p q t h = ground (arith, has-append r p (q ++ t), has-append r q t)

pub has_after : (r : ℕ) (p q : List ℕ) → has r q ≡ true → has r (p ++ q) ≡ true
has_after r p q h = ground (arith, has-append r p q)

pub has_before : (r : ℕ) (p q : List ℕ) → has r p ≡ true → has r (p ++ q) ≡ true
has_before r p q h = ground (arith, has-append r p q)

pub in_append :
    (r : ℕ) (es fs : List Event) → has r (all_refs es) ≡ true → has r (all_refs (es ++ fs)) ≡ true
in_append r es fs h = rw (all_refs-append es fs) (has_before r (all_refs es) (all_refs fs) h)

pub in_last :
    (r : ℕ) (es fs : List Event) → has r (all_refs fs) ≡ true → has r (all_refs (es ++ fs)) ≡ true
in_last r es fs h = rw (all_refs-append es fs) (has_after r (all_refs es) (all_refs fs) h)

module _ (lua : Registry) (base : ℕ → Option Value) {U : Type 0}
    (handle : U → Message → U × List Call)
    (plain : (u : U) (m : Message) → All IsPlain (handle u m).1) where
  -- After the events `old` and with `todo` left of the snapshot, the handlers have queued `new`.
  pub record At (old todo new : List Event) (d : Drain lua handle) : Type 0 where
    pub buf : d.queue.buf ≡ (old ++ todo) ++ new
    pub ledger : Ledger lua base d.queue.reg (all_refs todo ++ all_refs new)

  -- What a dispatch does to a queue whose owned references are `rs`.
  dispatch-Adds :
      {rs : List ℕ} (m : Option Message) (d : Drain lua handle)
      → Ledger lua base d.queue.reg rs
      → let o = run handle d.user (m ∷ []) in
        let d' = dispatch lua handle m d in
        Adds lua base rs (map asked o.calls) d.queue d'.queue
        × (d'.user ≡ o.user)
        × (d'.sent ≡ d.sent ++ o.sent)
  unfolding dispatch
  dispatch-Adds none d l = (Adds-none lua base d.queue l, refl, sym (append-nil d.sent))
  dispatch-Adds (some m) d l =
      let calls = (handle d.user m).1 in
      (
        rw (append-nil calls) (perform_all-Adds lua base calls d.queue (plain d.user m) l),
        refl,
        refl,
      )

  -- One round, for the event `e`.
  pub record Round (old todo new : List Event) (e : Event) (d d' : Drain lua handle) : Type 0 where
    pub es : List Event
    pub at : At (old ++ e ∷ []) todo (new ++ es) d'
    pub same : Same lua d.queue.reg d'.queue.reg (all_refs todo ++ all_refs new)
    pub says :
        messages lua d'.queue.reg es
        ≡ map asked (run handle d.user (message lua d.queue.reg e ∷ [])).calls
    pub user : d'.user ≡ (run handle d.user (message lua d.queue.reg e ∷ [])).user
    pub sent : d'.sent ≡ d.sent ++ (run handle d.user (message lua d.queue.reg e ∷ [])).sent

  buf-regroup :
      (old todo new es : List Event) (e : Event)
      → ((old ++ e ∷ todo) ++ new) ++ es ≡ ((old ++ e ∷ []) ++ todo) ++ (new ++ es)
  buf-regroup old todo new es e = simp append_assoc

  pub event-Round :
      (old todo new : List Event) (e : Event) (d : Drain lua handle)
      → At old (e ∷ todo) new d
      → Round old todo new e d (drain_event lua handle (some e) d)
  unfolding drain_event
  event-Round old todo new e d at =
      let m = message lua d.queue.reg e in
      let (a, u, s) = dispatch-Adds m d at.ledger in
      let d1 = dispatch lua handle m d in
      let owned =
        subst (Ledger lua base d1.queue.reg)
          (regroup (refs e) (all_refs todo) (all_refs new) (all_refs a.es)) a.ledger in
      let (l, kept) = Ledger-cleanup lua base e owned in
      record {
        es = a.es;
        at = record {
          buf =
              a.added ∙ ap (λ (b : List Event). b ++ a.es) at.buf ∙ buf-regroup old todo new a.es e;
          ledger = rw (all_refs-append new a.es) l;
        };
        same = λ r h.
            kept r (has_rest r (all_refs todo) (all_refs new) (all_refs a.es) h)
            ∙ a.same r (has_all r (refs e) (all_refs todo) (all_refs new) h);
        says =
            messages-Same lua a.es
              (λ r h. kept r (has_last r (all_refs todo) (all_refs new) (all_refs a.es) h))
            ∙ a.says;
        user = u;
        sent = s;
      }
    where
      regroup : (p q r t : List ℕ) → ((p ++ q) ++ r) ++ t ≡ p ++ (q ++ (r ++ t))
      regroup p q r t = simp append_assoc
