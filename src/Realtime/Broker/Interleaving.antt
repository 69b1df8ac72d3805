-- ===== src/Realtime/Broker/Interleaving.antt =====
-- The producers of events at work at the same time: `publish` of
-- apps/api/src/realtime/realtime.publisher.ts awaits the number of an event and then publishes the
-- event, and in between other producers may do either. A schedule says what happens one after the
-- other, the newest first, and when.
use mathlib.Core.Option.{some-injective}
use wa_ops.Base.{
  ℕ, zero, suc, ◌+◌, ◌<◌, ◌≤◌, ◌≡◌, refl, ap, ◌∙◌, ◌&&◌, ◌==◌, Option, none, some, List, [], ◌∷◌,
  take, map, ltb, arith, if◌then◌else◌, Bool-cases, Option-cases, inl, inr, ◌↔◌,
}
use wa_ops.Base.Text.{Text, text_eq, text_eq_iff}
use wa_ops.Realtime.Broker.{
  Event, RetainedList, read_ring, push_trimmed, publish, retained_max, retained_ttl_seconds,
  ring_of, retained_after,
}
use wa_ops.Realtime.Broker.Replay.{IsIn, IsSorted, retained_after-IsSorted}
use wa_ops.Realtime.Broker.Streams.{SseChannel, channel_name}
use wa_ops.Realtime.Broker.Ids.{Draft, set, same_channel, text_eq-channel_name}

-- A draft with the number that its producer was given.
pub record Numbered : Type 0 where
  pub draft : Draft
  pub id : ℕ

-- An event that was published, with the time.
pub record Sent : Type 0 where
  pub numbered : Numbered
  pub time : ℕ

abbrev pub event_of : Numbered → Event
event_of n = record { id = n.id; type = n.draft.type; payload = n.draft.payload }

pub data Act : Type 0 where
  -- a producer awaits `incr`
  numbers : Draft → Act
  -- the producer of the waiting event under an index publishes it at a time
  publishes : (i now : ℕ) → Act

-- What waits under an index, and the others.
unfoldable pub pick : ℕ → List Numbered → Option (Numbered × List Numbered)
pick i [] = none
pick zero (n ∷ ns) = some (n, ns)
pick (suc i) (n ∷ ns) = elim (pick i ns) [ none ↦ none | some (m, ms) ↦ some (m, n ∷ ms) ]

module _ (Raw : Type 0) (stringify : Event → Raw) (parse : Raw → Option Event) where
  -- The counters, the lists, the events that have a number and are not published yet, and those that
  -- are, the newest first.
  pub record Work : Type 0 where
    pub seq : Text → ℕ
    pub retained : Text → RetainedList Raw
    pub waiting : List Numbered
    pub published : List Sent

  abbrev pub idle : Work
  idle = record {
    seq = λ t. 0;
    retained = λ ch. record { ring = []; expires_at = 0 };
    waiting = [];
    published = [];
  }

  unfoldable pub take_number : Draft → Work → Work
  unfolding set
  take_number d w =
      let id = suc (w.seq d.tenant_id) in
      record w {
        seq = set d.tenant_id id w.seq;
        waiting = record { draft = d; id = id } ∷ w.waiting;
      }

  unfoldable pub publish_waiting : ℕ → ℕ → Work → Work
  unfolding set publish pick
  publish_waiting i now w = elim (pick i w.waiting) [
    | none ↦ w
    | some (n, others) ↦
        let ch = channel_name n.draft.tenant_id n.draft.channel in
        record w {
          retained =
              set ch (publish Raw stringify parse now (event_of n) (w.retained ch)) w.retained;
          waiting = others;
          published = record { numbered = n; time = now } ∷ w.published;
        }
  ]

  unfoldable pub act : Act → Work → Work
  unfolding take_number publish_waiting
  act (numbers d) w = take_number d w
  act (publishes i now) w = publish_waiting i now w

  unfoldable pub run : List Act → Work
  unfolding act
  run [] = idle
  run (a ∷ older) = act a (run older)

-- The events of a tenant on a channel, the newest first, back to the first that was published less than
-- an hour before the next one, or before now.
unfoldable pub alive : ℕ → Text → SseChannel → List Sent → List Event
alive now tenant c [] = []
alive now tenant c (m ∷ ms) =
    let rest = alive m.time tenant c ms in
    let others = alive now tenant c ms in
    let n = m.numbered in
    if text_eq tenant n.draft.tenant_id && same_channel c n.draft.channel
    then (if ltb now (m.time + retained_ttl_seconds) then event_of n ∷ rest else [])
    else others

abbrev pub numbered_of : List Sent → List Numbered
numbered_of = map (λ m. m.numbered)

-- How many events of a tenant have an id.
unfoldable pub count_id : Text → ℕ → List Numbered → ℕ
count_id tenant id [] = 0
count_id tenant id (n ∷ ns) =
    let rest = count_id tenant id ns in
    if text_eq tenant n.draft.tenant_id && id == n.id then suc rest else rest

count_id-cons :
    (tenant : Text) (id : ℕ) (n : Numbered) (ns : List Numbered)
    → count_id tenant id (n ∷ ns) ≡ count_id tenant id (n ∷ []) + count_id tenant id ns
unfolding count_id
count_id-cons tenant id n ns = ground arith

count_id-pick :
    (tenant : Text) (id i : ℕ) (ns : List Numbered) (n : Numbered) (others : List Numbered)
    → pick i ns ≡ some (n, others)
    → count_id tenant id ns ≡ count_id tenant id (n ∷ []) + count_id tenant id others
unfolding pick
count_id-pick tenant id i [] n others e = cc
count_id-pick tenant id zero (m ∷ ms) n others e =
    let same = some-injective _ _ e in
    let head : m ≡ n = ap (λ (x : Numbered × List Numbered). x.0) same in
    let tail : ms ≡ others = ap (λ (x : Numbered × List Numbered). x.1) same in
    rw (← head, ← tail) (count_id-cons tenant id m ms)
count_id-pick tenant id (suc i) (m ∷ ms) n others e = elim (Option-cases (pick i ms)) [
  | inl p ↦ (let gone : none ≡ some (n, others) = rw p at e in absurd (cc gone))
  | inr ((k, ks), p) ↦
      (let same = some-injective _ _ (rw p at e) in
        let head : k ≡ n = ap (λ (x : Numbered × List Numbered). x.0) same in
        let tail : m ∷ ks ≡ others = ap (λ (x : Numbered × List Numbered). x.1) same in
        let ih = count_id-pick tenant id i ms k ks p in
        rw (← head, ← tail)
          (omega (arith, ih, count_id-cons tenant id m ms, count_id-cons tenant id m ks)))
]

module _ (Raw : Type 0) (stringify : Event → Raw) (parse : Raw → Option Event) where
  -- Each id that a tenant has been given is given once, and none is above the counter.
  pub record AreApart (w : Work Raw stringify parse) : Type 0 where
    pub once :
        (tenant : Text) (id : ℕ)
        → count_id tenant id w.waiting + count_id tenant id (numbered_of w.published) ≤ 1
    pub below :
        (tenant : Text) (id : ℕ)
        → w.seq tenant < id
        → count_id tenant id w.waiting + count_id tenant id (numbered_of w.published) ≡ 0

  take_number-AreApart :
      (d : Draft) (w : Work Raw stringify parse)
      → AreApart w
      → AreApart (take_number Raw stringify parse d w)
  unfolding take_number count_id
  take_number-AreApart d w apart = record {
    once = λ t n. elim (Bool-cases (text_eq t d.tenant_id)) [
      | inl p ↦
          (let own = (text_eq_iff t d.tenant_id).0 p in
            let a = apart.once t n in let b = apart.below t n in rw (p, ← own) (ground arith))
      | inr p ↦ rw p (apart.once t n)
    ];
    below = λ t n h. elim (Bool-cases (text_eq t d.tenant_id)) [
      | inl p ↦
          (let own = (text_eq_iff t d.tenant_id).0 p in
            let b = apart.below t n in
            let more : suc (w.seq t) < n = rw (p, ← own) at h in rw (p, ← own) (ground arith))
      | inr p ↦ (let more : w.seq t < n = rw p at h in rw p (apart.below t n more))
    ];
  }

  publish_waiting-AreApart :
      (i now : ℕ) (w : Work Raw stringify parse)
      → AreApart w
      → AreApart (publish_waiting Raw stringify parse i now w)
  unfolding publish_waiting
  publish_waiting-AreApart i now w apart = elim (Option-cases (pick i w.waiting)) [
    | inl p ↦ rw (p, publish_waiting) apart
    | inr ((n, others), p) ↦
        rw (p, publish_waiting)
          (record {
            once = λ t id.
                let a = apart.once t id in
                omega (
                  arith,
                  a,
                  count_id-pick t id i w.waiting n others p,
                  count_id-cons t id n (numbered_of w.published),
                );
            below = λ t id h.
                let b = apart.below t id h in
                omega (
                  arith,
                  b,
                  count_id-pick t id i w.waiting n others p,
                  count_id-cons t id n (numbered_of w.published),
                );
          })
  ]

  run-AreApart : (acts : List Act) → AreApart (run Raw stringify parse acts)
  unfolding run act count_id
  run-AreApart [] = record { once = λ t id. omega arith; below = λ t id h. refl }
  run-AreApart (numbers d ∷ older) = take_number-AreApart d _ (run-AreApart older)
  run-AreApart (publishes i now ∷ older) = publish_waiting-AreApart i now _ (run-AreApart older)

  -- The list of a channel at any time, and what has been published.
  abbrev pub IsRetained : Work Raw stringify parse → Type 0
  IsRetained w =
      (tenant : Text) (c : SseChannel) (now : ℕ)
      → read_ring now (w.retained (channel_name tenant c))
        ≡ ring_of Raw stringify parse (alive now tenant c w.published)

  publish_waiting-IsRetained :
      (i now : ℕ) (w : Work Raw stringify parse)
      → IsRetained w
      → IsRetained (publish_waiting Raw stringify parse i now w)
  unfolding publish_waiting alive ring_of publish read_ring
  publish_waiting-IsRetained i time w kept tenant c now = elim (Option-cases (pick i w.waiting)) [
    | inl p ↦ rw (p, publish_waiting) (kept tenant c now)
    | inr ((n, others), p) ↦
        (let keys = text_eq-channel_name tenant n.draft.tenant_id c n.draft.channel in
          rw (p, publish_waiting)
            (elim (Bool-cases
              (text_eq tenant n.draft.tenant_id && same_channel c n.draft.channel)) [
                | inl q ↦
                    (let key : channel_name tenant c
                          ≡ channel_name n.draft.tenant_id n.draft.channel =
                        (text_eq_iff _ _).0 (keys ∙ q) in
                      rw (keys, q, ← key)
                        (elim (Bool-cases (ltb now (time + retained_ttl_seconds))) [
                          | inl young ↦ rw young (
                              ap (push_trimmed Raw stringify parse (event_of n))
                                (kept tenant c time))
                          | inr old ↦ rw old refl
                        ]))
                | inr q ↦ rw (keys, q) (kept tenant c now)
              ]))
  ]

  run-IsRetained : (acts : List Act) → IsRetained (run Raw stringify parse acts)
  unfolding run act alive ring_of take_number read_ring
  run-IsRetained [] tenant c now = elim (Bool-cases (ltb now 0)) [
    | inl e ↦ rw (e, read_ring) refl
    | inr e ↦ rw (e, read_ring) refl
  ]
  run-IsRetained (numbers d ∷ older) tenant c now = run-IsRetained older tenant c now
  run-IsRetained (publishes i time ∷ older) tenant c now =
      publish_waiting-IsRetained i time _ (run-IsRetained older) tenant c now

  -- However the producers interleave, no two events of a tenant are given one id, and what a client of
  -- the tenant is sent again on a channel at any time is in the order of the ids, and holds exactly
  -- those of the newest 200 events that were published for that tenant and channel since the last hour
  -- in which none was, whose id is above the cursor. Asked: `JSON.parse` undoes `JSON.stringify` on
  -- events.
  pub run-replays :
      (parse-stringify : (e : Event) → parse (stringify e) ≡ some e) (acts : List Act)
      (tenant : Text) (c : SseChannel) (now cursor : ℕ) (e : Event)
      → let w = run Raw stringify parse acts in
        let again =
          retained_after Raw stringify parse
            (read_ring now (w.retained (channel_name tenant c)))
            cursor in
        ((id : ℕ) → count_id tenant id w.waiting + count_id tenant id (numbered_of w.published) ≤ 1)
        × IsSorted again
        × (IsIn e again
            ↔ (IsIn e (take retained_max (alive now tenant c w.published)) × (cursor < e.id)))
  run-replays parse-stringify acts tenant c now cursor e =
      let w = run Raw stringify parse acts in
      let (sorted, exact) =
        retained_after-IsSorted Raw stringify parse parse-stringify (alive now tenant c w.published)
          cursor e in
      (
        (run-AreApart acts).once tenant,
        rw (run-IsRetained acts tenant c now) sorted,
        rw (run-IsRetained acts tenant c now) exact,
      )
