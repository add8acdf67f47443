-- ===== src/Client/Retrying.antt =====
-- How often `update_record` (src/client.rs) sends its message.
use swandns.Prelude.{
  ℕ, zero, suc, ◌≤◌, ◌≡◌, ◌∙◌, ◌⊎◌, inl, inr, List, [], ◌∷◌, length, Result, ok, err, Result-cases,
  returned, arith,
}
use swandns.Messages.{RecordReply}
use swandns.Net.{IpAddr, AddressText}
use swandns.Util.{Host, get_iface_addr}
use swandns.Config.{ClientConfig, ClientRecordConfig}
use swandns.Client.{
  ClientError, or_option, Action, RetryLibrary, IsRetry, Network, client_upsert, update_message,
  retry_policy, server_url_of, update_record,
}

module _ {W A : Type 0} (act : Action W A) where
  -- the world after some attempts
  abbrev pub world_after : ℕ → W → W
  world_after zero w = w
  world_after (suc k) w = world_after k (act w).1

  -- so many attempts in a row fail
  abbrev pub FailsFor : ℕ → W → Type 0
  FailsFor zero w = Unit
  FailsFor (suc k) w = ((e : ClientError) × ((act w).0 ≡ err e)) × FailsFor k (act w).1

  -- With `n` retries: some attempt succeeds after others that fail, and `r` is its result, with no
  -- attempt after it; or all fail, and `r` is an error.
  abbrev pub FirstSuccess : ℕ → W → Result ClientError A × W → Type 0
  FirstSuccess n w r =
      ((k : ℕ) × (k ≤ n)
        × FailsFor k w
        × ((a : A) × ((act (world_after k w)).0 ≡ ok a) × (r ≡ (ok a, world_after (suc k) w))))
      ⊎ (FailsFor (suc n) w
          × ((e : ClientError) × ((act (world_after n w)).0 ≡ err e)
              × (r ≡ (err e, world_after (suc n) w))))

module _ (retry : RetryLibrary) (h : IsRetry retry) {W A : Type 0} (act : Action W A) where
  spawn-FirstSuccess :
      (ds : List ℕ) (w : W) → FirstSuccess act (length ds) w (retry.spawn W A ds act w)
  spawn-FirstSuccess [] w = elim (Result-cases (act w).0) [
    | inl (a, e) ↦ inl (0, omega arith, tt, (a, e, h.last W A act w ∙ λ i. (e i, (act w).1)))
    | inr (x, e) ↦ inr (((x, e), tt), (x, e, h.last W A act w ∙ λ i. (e i, (act w).1)))
  ]
  spawn-FirstSuccess (d ∷ ds) w = elim (Result-cases (act w).0) [
    | inl (a, e) ↦
        inl (
          0,
          omega arith,
          tt,
          (a, e, h.succeeds W A d ds act w (act w).1 a (λ i. (e i, (act w).1))),
        )
    | inr (x, e) ↦
        let again = h.fails W A d ds act w (act w).1 x (λ i. (e i, (act w).1)) in
        elim (spawn-FirstSuccess ds (act w).1) [
          | inl (k, few, failed, (a, found, r)) ↦
              inl (suc k, omega arith, ((x, e), failed), (a, found, again ∙ r))
          | inr (failed, (y, found, r)) ↦ inr (((x, e), failed), (y, found, again ∙ r))
        ]
  ]

module _ {W : Type 0} (net : AddressText) (retry : RetryLibrary) (network : Network W)
    (host : Host) where
  -- If `get_iface_addr` returns an address and the retry library keeps to its documentation: the
  -- message for the address is sent at most six times: up to the first time that the
  -- server takes it, whose reply is the result, or six times in vain, and the last error is the
  -- result.
  pub update_record-FirstSuccess :
      (cfg : ClientConfig) (record_config : ClientRecordConfig) (ip : IpAddr) (w : W)
      → IsRetry retry
      → get_iface_addr host
          (or_option record_config.bind cfg.default_bind)
          (or_option record_config.protocol cfg.default_protocol)
        ≡ returned (ok ip)
      → (r : Result ClientError RecordReply) × (w' : W) × (update_record net retry network host cfg
            record_config w
          ≡ (returned r, w'))
        × FirstSuccess
            (client_upsert network
              (server_url_of cfg record_config)
              (update_message net record_config.name ip))
            5
            w
            (r, w')
  unfolding update_record
  update_record-FirstSuccess cfg record_config ip w h found =
      let act =
        client_upsert network (server_url_of cfg record_config)
          (update_message net record_config.name ip) in
      let (r, w') = retry.spawn W RecordReply (retry_policy retry) act w in
      (r, w', rw found, spawn-FirstSuccess retry h act (retry_policy retry) w)
