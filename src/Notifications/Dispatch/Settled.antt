-- ===== src/Notifications/Dispatch/Settled.antt =====
-- What a delivery of apps/worker/src/notifications.ts leaves behind.
use wa_ops.Base.{
  ℕ, ◌≡◌, ◌≢◌, ◌⊎◌, refl, ◌∙◌, Bool, true, false, Option, none, some, [], if◌then◌else◌,
  Option-cases, Bool-cases, inl, inr, arith,
}
use wa_ops.Base.Text.{Text, codes, text_eq, text_eq_iff}
use wa_ops.Contracts.{Envelope}
use wa_ops.Database.{RowId, Table, change}
use wa_ops.Notifications.Dispatch.{
  Channel, Delivery, pending, delivered, failed, Outside, Answer, skipped, was_delivered, thrown,
  has_failed, Tried, done, unknown, threw, caught, new_delivery, to_delivered, to_failed,
  settle_delivery, tried, attempt, enabled_channel, dispatch_to_channel,
}

-- The row that goes with an answer: a call that throws leaves it pending and untried.
abbrev pub Shows : Answer → Delivery → Type 0
Shows skipped d = ⊥
Shows was_delivered d = (d.status ≡ delivered) × (d.attempt_count ≡ 1)
Shows (has_failed error) d =
    (d.status ≡ failed) × (d.last_error ≡ some error) × (d.attempt_count ≡ 1)
Shows thrown d = (d.status ≡ pending) × (d.attempt_count ≡ 0)

module _ (channels_table : Table Channel) (deliveries_table : Table Delivery)
    (hmac : Text → Text → Text) (digits : ℕ → Text)
    (stringify : Option RowId → Envelope → Text) where
  -- One row more, which says what the answer says; the call throws only if the `update` of the `catch`
  -- does.
  pub record IsSettled (before after : deliveries_table.State) (answer : Answer)
      (channel_id : RowId) (tenant : Text) (catch_fault : Bool) : Type 0 where
    pub id : RowId
    pub row : Delivery
    pub fresh : deliveries_table.at before id ≡ none
    pub stands : deliveries_table.at after id ≡ some row
    pub shows : Shows answer row
    pub throws_by : answer ≡ thrown → catch_fault ≡ true
    pub to_channel : row.channel_id ≡ channel_id
    pub of_tenant : row.tenant_id ≡ tenant
    pub others : (j : RowId) → j ≢ id → deliveries_table.at after j ≡ deliveries_table.at before j

  abbrev caught_row : Text → Bool → Delivery → Delivery
  caught_row message true d = d
  caught_row message false d = to_failed message d

  abbrev settled_row : Tried → Option Text → Bool → Delivery → Delivery
  settled_row (done ref) none bad d = to_delivered ref d
  settled_row unknown none bad d = to_failed (codes "unknown provider") d
  settled_row (done ref) (some message) bad d = caught_row message bad d
  settled_row unknown (some message) bad d = caught_row message bad d
  settled_row (threw message) fault bad d = caught_row message bad d

  kept_row :
      (id : RowId) (s : deliveries_table.State) (j : RowId)
      → deliveries_table.at s j ≡ (
          if text_eq id j
          then change (λ d. d) (deliveries_table.at s j)
          else deliveries_table.at s j)
  kept_row id s j = elim (Option-cases (deliveries_table.at s j)) [
    | inl e ↦ rw e (ground arith)
    | inr (d, e) ↦ rw e (ground arith)
  ]

  at_caught :
      (id : RowId) (message : Text) (bad : Bool) (s : deliveries_table.State) (j : RowId)
      → deliveries_table.at
          (caught channels_table deliveries_table hmac digits stringify id message bad s).0
          j
        ≡ (if text_eq id j
            then change (caught_row message bad) (deliveries_table.at s j)
            else deliveries_table.at s j)
  at_caught id message true s j = kept_row id s j
  at_caught id message false s j = deliveries_table.at-update id (to_failed message) s j

  caught-Shows :
      (id : RowId) (message : Text) (bad : Bool) (s : deliveries_table.State) (channel_id : RowId)
      (incident_id : Option RowId) (e : Envelope)
      → Shows
          (caught channels_table deliveries_table hmac digits stringify id message bad s).1
          (caught_row message bad (new_delivery channel_id incident_id e))
  caught-Shows id message true s channel_id incident_id e = (refl, refl)
  caught-Shows id message false s channel_id incident_id e = (refl, refl, refl)

  settle_delivery-Shows :
      (id : RowId) (t : Tried) (fault : Option Text) (bad : Bool) (s : deliveries_table.State)
      (channel_id : RowId) (incident_id : Option RowId) (e : Envelope)
      → Shows
          (settle_delivery channels_table deliveries_table hmac digits stringify id t fault bad s).1
          (settled_row t fault bad (new_delivery channel_id incident_id e))
  settle_delivery-Shows id (done none) none bad s channel_id incident_id e = (refl, refl)
  settle_delivery-Shows id (done (some ref)) none bad s channel_id incident_id e = (refl, refl)
  settle_delivery-Shows id unknown none bad s channel_id incident_id e = (refl, refl, refl)
  settle_delivery-Shows id (done ref) (some message) bad s channel_id incident_id e =
      caught-Shows id message bad s channel_id incident_id e
  settle_delivery-Shows id unknown (some message) bad s channel_id incident_id e =
      caught-Shows id message bad s channel_id incident_id e
  settle_delivery-Shows id (threw message) fault bad s channel_id incident_id e =
      caught-Shows id message bad s channel_id incident_id e

  caught-throws :
      (id : RowId) (message : Text) (bad : Bool) (s : deliveries_table.State)
      → (caught channels_table deliveries_table hmac digits stringify id message bad s).1 ≡ thrown
      → bad ≡ true
  caught-throws id message true s e = refl
  caught-throws id message false s e = cc

  settle_delivery-throws :
      (id : RowId) (t : Tried) (fault : Option Text) (bad : Bool) (s : deliveries_table.State)
      → (settle_delivery channels_table deliveries_table hmac digits stringify id t fault bad s).1
        ≡ thrown
      → bad ≡ true
  settle_delivery-throws id (done ref) none bad s e = cc
  settle_delivery-throws id unknown none bad s e = cc
  settle_delivery-throws id (done ref) (some message) bad s e = caught-throws id message bad s e
  settle_delivery-throws id unknown (some message) bad s e = caught-throws id message bad s e
  settle_delivery-throws id (threw message) fault bad s e = caught-throws id message bad s e

  caught_same :
      (message : Text) (bad : Bool) (d : Delivery)
      → ((caught_row message bad d).channel_id ≡ d.channel_id)
        × ((caught_row message bad d).tenant_id ≡ d.tenant_id)
  caught_same message true d = (refl, refl)
  caught_same message false d = (refl, refl)

  settled_same :
      (t : Tried) (fault : Option Text) (bad : Bool) (d : Delivery)
      → ((settled_row t fault bad d).channel_id ≡ d.channel_id)
        × ((settled_row t fault bad d).tenant_id ≡ d.tenant_id)
  settled_same (done none) none bad d = (refl, refl)
  settled_same (done (some ref)) none bad d = (refl, refl)
  settled_same unknown none bad d = (refl, refl)
  settled_same (done ref) (some message) bad d = caught_same message bad d
  settled_same unknown (some message) bad d = caught_same message bad d
  settled_same (threw message) fault bad d = caught_same message bad d

  at_settled :
      (id : RowId) (t : Tried) (fault : Option Text) (bad : Bool) (s : deliveries_table.State)
      (j : RowId)
      → deliveries_table.at
          (settle_delivery channels_table deliveries_table hmac digits stringify id t fault bad s).0
          j
        ≡ (if text_eq id j
            then change (settled_row t fault bad) (deliveries_table.at s j)
            else deliveries_table.at s j)
  at_settled id (done ref) none bad s j = deliveries_table.at-update id (to_delivered ref) s j
  at_settled id unknown none bad s j =
      deliveries_table.at-update id (to_failed (codes "unknown provider")) s j
  at_settled id (done ref) (some message) bad s j = at_caught id message bad s j
  at_settled id unknown (some message) bad s j = at_caught id message bad s j
  at_settled id (threw message) fault bad s j = at_caught id message bad s j

  at_new :
      (id : RowId) (t : Tried) (fault : Option Text) (bad : Bool) (d : Delivery)
      (s : deliveries_table.State)
      → deliveries_table.at s id ≡ some d
      → deliveries_table.at
          (settle_delivery channels_table deliveries_table hmac digits stringify id t fault bad s).0
          id
        ≡ some (settled_row t fault bad d)
  at_new id t fault bad d s stands =
      at_settled id t fault bad s id ∙ rw ((text_eq_iff id id).1 refl, stands) refl

  at_other :
      (id : RowId) (t : Tried) (fault : Option Text) (bad : Bool) (s : deliveries_table.State)
      (j : RowId)
      → j ≢ id
      → deliveries_table.at
          (settle_delivery channels_table deliveries_table hmac digits stringify id t fault bad s).0
          j
        ≡ deliveries_table.at s j
  at_other id t fault bad s j other =
      at_settled id t fault bad s j ∙ ground (arith, text_eq_iff id j)

  attempt-IsSettled :
      (channel : Channel) (channel_id : RowId) (incident_id : Option RowId) (e : Envelope)
      (out : Outside) (s : deliveries_table.State)
      → IsSettled s
          (attempt channels_table deliveries_table hmac digits stringify channel channel_id
            incident_id e out s).0
          (attempt channels_table deliveries_table hmac digits stringify channel channel_id
            incident_id e out s).1
          channel_id
          e.tenant_id
          out.catch_fault
  attempt-IsSettled channel channel_id incident_id e out s =
      let made = new_delivery channel_id incident_id e in
      let t = tried channels_table deliveries_table hmac digits stringify channel.provider out in
      let (to, of) = settled_same t out.fault out.catch_fault made in
      record {
        id = (deliveries_table.create made s).0;
        row = settled_row t out.fault out.catch_fault made;
        fresh = deliveries_table.create-fresh made s;
        stands = at_new _ t out.fault out.catch_fault made _ (
            deliveries_table.at-create made s (deliveries_table.create made s).0
            ∙ ground (
              arith,
              text_eq_iff (deliveries_table.create made s).0 (deliveries_table.create made s).0,
            ));
        shows = settle_delivery-Shows _ t out.fault out.catch_fault _ channel_id incident_id e;
        throws_by = settle_delivery-throws _ t out.fault out.catch_fault _;
        to_channel = to;
        of_tenant = of;
        others = λ j other.
            at_other _ t out.fault out.catch_fault _ j other
            ∙ deliveries_table.at-create made s j
            ∙ ground (arith, text_eq_iff (deliveries_table.create made s).0 j);
      }

  -- A call for a channel that is not there or not enabled is skipped, and one whose `create` throws
  -- throws; both leave the table as it was. Any other call adds one row for the channel and the tenant
  -- and changes no other: it is delivered or failed after one attempt, just as the call answers, the
  -- error included, but for a call whose `update` in the `catch` throws, which throws and leaves the
  -- row pending.
  pub dispatch_to_channel-settles :
      (channels : channels_table.State) (channel_id : RowId) (incident_id : Option RowId)
      (e : Envelope) (out : Outside) (s : deliveries_table.State)
      → ((enabled_channel channels_table deliveries_table hmac digits stringify
              (channels_table.at channels channel_id)
            ≡ none)
          × (dispatch_to_channel channels_table deliveries_table hmac digits stringify channels
                channel_id incident_id e out s
              ≡ (s, skipped, [])))
        ⊎ (((out.create_fault ≡ true)
              × (dispatch_to_channel channels_table deliveries_table hmac digits stringify channels
                    channel_id incident_id e out s
                  ≡ (s, thrown, [])))
            ⊎ IsSettled s
                (dispatch_to_channel channels_table deliveries_table hmac digits stringify channels
                  channel_id incident_id e out s).0
                (dispatch_to_channel channels_table deliveries_table hmac digits stringify channels
                  channel_id incident_id e out s).1
                channel_id
                e.tenant_id
                out.catch_fault)
  unfolding dispatch_to_channel
  dispatch_to_channel-settles channels channel_id incident_id e out s =
      elim (Option-cases (
        enabled_channel channels_table deliveries_table hmac digits stringify
          (channels_table.at channels channel_id))) [
            | inl p ↦ inl (p, rw (p, dispatch_to_channel) refl)
            | inr (channel, p) ↦ elim (Bool-cases out.create_fault) [
              | inl bad ↦ inr (inl (bad, rw (p, bad, dispatch_to_channel) refl))
              | inr fine ↦ inr (
                  inr (
                    simp (p, fine, dispatch_to_channel)
                      (attempt-IsSettled channel channel_id incident_id e out s)))
            ]
          ]
