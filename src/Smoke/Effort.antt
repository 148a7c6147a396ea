-- ===== src/Smoke/Effort.antt =====
-- What the smoke test does outside.
use solvela_go.Base.{
  Bytes, ◌+◌, ◌≤◌, ◌≡◌, refl, ap, ◌∙◌, ◌⊎◌, false, Option, none, some, List, [], ◌∷◌, arith,
}
use solvela_go.Errors.{Result, ok, err}
use solvela_go.Config.{with_gateway_url, default_config, apply, apply_all}
use solvela_go.Wire.{ModelInfo}
use solvela_go.Library.{Library}
use solvela_go.Transport.{fetch_models}
use solvela_go.Client.{SolvelaClient}
use solvela_go.Client.Construction.{NewClient, new_client}
use solvela_go.Client.Construction.Ready.{
  new_client-IsReady, config-new_client, has_signer-new_client,
}
use solvela_go.Client.Effort.Rounds.{retries_of}
use solvela_go.Client.Effort.Unsigned.{chat_unsigned_effort}
use solvela_go.Exec.{World, Environment}
use solvela_go.Exec.Effort.{
  exchanges, signings, Within, Adds, Adds-bind, Adds-lift, exchange-Adds, unconditional,
}
use solvela_go.Smoke.{Failure, ping, ask, judge_models, examine, started, gateway_of, smoke}

module _ (lib : Library) (env : Environment) (c : SolvelaClient) where
  fetch_models-Adds : Adds (fetch_models lib env c.transport) 1 0
  unfolding fetch_models
  fetch_models-Adds =
      Adds-bind _ _ 0 0 1 0 (Adds-lift _)
        λ _. Adds-bind _ _ 1 0 0 0 (exchange-Adds env _) λ o. Adds-lift _

  fetch_models_effort :
      (w : World)
      → Within (exchanges w.history + 1) (signings w.history) (fetch_models lib env c.transport w).1
  fetch_models_effort w =
      let i =
        unconditional (Within (exchanges w.history + 1) (signings w.history + 0))
          (fetch_models lib env c.transport w).0 _
          ((fetch_models-Adds (exchanges w.history) (signings w.history)).at w
            (record { posted = omega arith; paid = omega arith })) in
      record { posted = i.posted; paid = omega (arith, i.paid) }

  module _ (unsigned : c.has_signer ≡ false) (unchecked : retries_of c.config ≡ 0) where
    ask_effort :
        (sample : ModelInfo) (found : Option Failure) (w : World)
        → Within (exchanges w.history + 1) (signings w.history) (ask lib env c sample found w).1
    unfolding ask
    ask_effort sample (some why) w = record { posted = omega arith; paid = omega arith }
    ask_effort sample none w =
        let (posted, paid) = chat_unsigned_effort lib env c unsigned (ping sample.id) w in
        record { posted = omega (arith, posted, unchecked); paid = paid }

    judge_models_effort :
        (r : Result (List ModelInfo)) (w : World)
        → Within (exchanges w.history + 1) (signings w.history) (judge_models lib env c r w).1
    unfolding judge_models
    judge_models_effort (err e) w = record { posted = omega arith; paid = omega arith }
    judge_models_effort (ok []) w = record { posted = omega arith; paid = omega arith }
    judge_models_effort (ok (sample ∷ models)) w = ask_effort sample _ w

    examine_effort :
        (w : World) → Within (exchanges w.history + 2) (signings w.history) (examine lib env c w).1
    unfolding examine
    examine_effort w =
        let (models, w') = fetch_models lib env c.transport w in
        let f = fetch_models_effort w in
        let j = judge_models_effort models w' in
        record { posted = omega (arith, f.posted, j.posted); paid = omega (arith, f.paid, j.paid) }

started_effort :
    (lib : Library) (env : Environment) (r : Result NewClient)
    → ((n : NewClient)
        → r ≡ ok n
        → (n.client.has_signer ≡ false) × (retries_of n.client.config ≡ 0) × (n.world.history ≡ []))
    → (exchanges (started lib env r).1 ≤ 2) × (signings (started lib env r).1 ≡ 0)
unfolding started
started_effort lib env (err e) good = (omega arith, refl)
started_effort lib env (ok n) good =
    let (unsigned, unchecked, empty) = good n refl in
    let e = examine_effort lib env n.client unsigned unchecked n.world in
    omega (arith, e.posted, e.paid, ap exchanges empty, ap signings empty)

no_retries : (url : Bytes) → retries_of (apply_all (with_gateway_url url ∷ []) default_config) ≡ 0
unfolding apply_all apply default_config
no_retries url = refl

-- Whatever the gateway, the clock and the context answer, a run of the smoke test makes at most two
-- requests to the gateway, and asks no signer for anything.
pub smoke_effort :
    (lib : Library) (env : Environment) (salt : Bytes ⊎ Bytes) (url : Bytes)
    → (exchanges (smoke lib env salt url).1 ≤ 2) × (signings (smoke lib env salt url).1 ≡ 0)
unfolding smoke
smoke_effort lib env salt url =
    let settings = with_gateway_url (gateway_of url) ∷ [] in
    started_effort lib env (new_client lib false salt settings) λ n made.
      let ready = new_client-IsReady lib false salt settings made in
      let same = config-new_client lib false salt settings made in
      (
        has_signer-new_client lib false salt settings made,
        ap retries_of same ∙ no_retries (gateway_of url),
        ready.untouched,
      )
