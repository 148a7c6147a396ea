-- ===== src/Smoke/Passing.antt =====
-- When the smoke test passes.
use solvela_go.Base.{
  Bytes, ◌≡◌, refl, sym, ap, ◌∙◌, ◌↔◌, ◌⊎◌, false, Option, none, some, List, [], ◌∷◌, nat_eq,
  bytes_eq, arith,
}
use mathlib.Core.Path.{subst}
use solvela_go.Errors.{Error, Result, ok, err}
use solvela_go.Types.Chat.{ChatResponse}
use solvela_go.Types.Payment.{PaymentRequired}
use solvela_go.Wire.{ModelInfo}
use solvela_go.Config.{with_gateway_url}
use solvela_go.Library.{Library}
use solvela_go.Transport.{fetch_models}
use solvela_go.Client.{SolvelaClient}
use solvela_go.Client.Chat.{chat}
use solvela_go.Client.Construction.{NewClient, new_client}
use solvela_go.Exec.{World, Environment}
use solvela_go.Smoke.{
  Failure, Verdict, passed, fail, exit_code, check_registry, check_demand, as_payment_required,
  verdict_of, judge_error, judge_answer, ping, ask, judge_models, examine, gateway_of, started,
  smoke,
}
use solvela_go.Smoke.Checks.{IsAsked, check_demand_iff, IsHealthy, check_registry_iff}

-- The error that `Chat` gave, if it is a demand of that kind.
pub record IsRefused (r : Result ChatResponse) : Type 0 where
  pub error : Error
  pub demand : PaymentRequired
  pub failed : r ≡ err error
  pub demanded : as_payment_required error ≡ some demand
  pub asked : IsAsked demand

verdict_iff : (found : Option Failure) → (verdict_of found ≡ passed) ↔ (found ≡ none)
verdict_iff none = (λ h. refl, λ h. refl)
verdict_iff (some why) = (λ h. cc, λ h. cc)

judge_error_iff :
    (found : Option PaymentRequired)
    → (judge_error found ≡ passed) ↔ ((pr : PaymentRequired) × (found ≡ some pr) × IsAsked pr)
unfolding judge_error
judge_error_iff none = (λ h. cc, λ (pr, same, asked). cc)
judge_error_iff (some pr) = (
  λ h.
      let (a, others, same, e) =
        (check_demand_iff pr pr.accepts).0 ((verdict_iff (check_demand pr pr.accepts)).0 h) in
      (pr, refl, record { first = a; others = others; splits = same; exact = e }),
  λ (pr', same, asked). (verdict_iff (check_demand pr pr.accepts)).1 (
      subst (λ p. check_demand p p.accepts ≡ none) (sym (some_eq same))
        ((check_demand_iff pr' pr'.accepts).1
          (asked.first, asked.others, asked.splits, asked.exact))),
)
  where
    some_eq : {p q : PaymentRequired} → some p ≡ some q → p ≡ q
    some_eq h = cc

judge_answer_iff : (r : Result ChatResponse) → (judge_answer r ≡ passed) ↔ IsRefused r
unfolding judge_answer
judge_answer_iff (ok r) = (λ h. cc, λ x. cc x.failed)
judge_answer_iff (err e) = (
  λ h.
      let (pr, found, asked) = (judge_error_iff (as_payment_required e)).0 h in
      record { error = e; demand = pr; failed = refl; demanded = found; asked = asked },
  λ x.
      (judge_error_iff (as_payment_required e)).1
        (x.demand, ap as_payment_required (err_eq x.failed) ∙ x.demanded, x.asked),
)
  where
    err_eq : {d e : Error} → ◌≡◌ {A = Result ChatResponse} (err d) (err e) → d ≡ e
    err_eq h = cc

module _ (lib : Library) (env : Environment) where
  -- A new client gets a healthy registry, and a demand for a payment where it asks the first model.
  pub record Passes (n : NewClient) : Type 0 where
    pub sample : ModelInfo
    pub models : List ModelInfo
    pub fetched : (fetch_models lib env n.client.transport n.world).0 ≡ ok (sample ∷ models)
    pub healthy : IsHealthy sample (sample ∷ models)
    pub refused :
        IsRefused
          (chat lib env n.client
            (ping sample.id)
            (fetch_models lib env n.client.transport n.world).1).0

  ask_iff :
      (c : SolvelaClient) (sample : ModelInfo) (found : Option Failure) (w : World)
      → ((ask lib env c sample found w).0 ≡ passed)
        ↔ ((found ≡ none) × IsRefused (chat lib env c (ping sample.id) w).0)
  unfolding ask
  ask_iff c sample (some why) w = (λ h. cc, λ x. cc x.0)
  ask_iff c sample none w =
      let judged = judge_answer_iff (chat lib env c (ping sample.id) w).0 in
      (λ h. (refl, judged.0 h), λ x. judged.1 x.1)

  -- What is behind a registry: the first model is asked.
  abbrev Proceeds : SolvelaClient → World → List ModelInfo → Type 0
  Proceeds c w [] = ⊥
  Proceeds c w (sample ∷ models) =
      IsHealthy sample (sample ∷ models) × IsRefused (chat lib env c (ping sample.id) w).0

  judge_models_iff :
      (c : SolvelaClient) (r : Result (List ModelInfo)) (w : World)
      → ((judge_models lib env c r w).0 ≡ passed)
        ↔ ((models : List ModelInfo) × (r ≡ ok models) × Proceeds c w models)
  unfolding judge_models
  judge_models_iff c (err e) w = (λ h. cc, λ x. cc x.1)
  judge_models_iff c (ok []) w = (
    λ h. cc,
    λ (models, same, more).
        let none_left : Proceeds c w [] = subst (Proceeds c w) (sym (ok_eq same)) more in
        absurd none_left,
  )
    where
      ok_eq : {xs ys : List ModelInfo} → ◌≡◌ {A = Result (List ModelInfo)} (ok xs) (ok ys) → xs ≡ ys
      ok_eq h = cc
  judge_models_iff c (ok (sample ∷ models)) w =
      let asked = ask_iff c sample (check_registry sample (sample ∷ models)) w in
      let registry = check_registry_iff sample (sample ∷ models) in
      (
        λ h.
            let (clean, turned_down) = asked.0 h in
            (sample ∷ models, refl, (registry.0 clean, turned_down)),
        λ (all, same, more).
            let (healthy, turned_down) : Proceeds c w (sample ∷ models) =
              subst (Proceeds c w) (sym (ok_eq same)) more in
            asked.1 (registry.1 healthy, turned_down),
      )
    where
      ok_eq : {xs ys : List ModelInfo} → ◌≡◌ {A = Result (List ModelInfo)} (ok xs) (ok ys) → xs ≡ ys
      ok_eq h = cc

  proceeds :
      (n : NewClient) (models : List ModelInfo)
      → (fetch_models lib env n.client.transport n.world).0 ≡ ok models
      → Proceeds n.client (fetch_models lib env n.client.transport n.world).1 models
      → Passes n
  proceeds n [] fetched more = absurd more
  proceeds n (sample ∷ models) fetched (healthy, turned_down) = record {
    sample = sample;
    models = models;
    fetched = fetched;
    healthy = healthy;
    refused = turned_down;
  }

  started_iff :
      (r : Result NewClient)
      → ((started lib env r).0 ≡ passed) ↔ ((n : NewClient) × (r ≡ ok n) × Passes n)
  unfolding started examine
  started_iff (err e) = (λ h. cc, λ x. cc x.1)
  started_iff (ok n) =
      let (models, w) = fetch_models lib env n.client.transport n.world in
      let judged = judge_models_iff n.client models w in
      (
        λ h. let (all, fetched, more) = judged.0 h in (n, refl, proceeds n all fetched more),
        λ (m, same, p).
            let q : Passes n = subst Passes (sym (client_eq same)) p in
            judged.1 (q.sample ∷ q.models, q.fetched, (q.healthy, q.refused)),
      )
    where
      client_eq : {m n : NewClient} → ◌≡◌ {A = Result NewClient} (ok m) (ok n) → m ≡ n
      client_eq h = cc

  -- The smoke test exits with 0 exactly if a client can be made, the registry that it fetches is not
  -- empty, has a model that streams and one with a price and describes its first model, and the
  -- request to that model is refused with a demand whose first accept has a well-formed recipient, a
  -- positive decimal amount of 64 bits, the network and the asset of the SDK, in the currency and the
  -- version that it expects.
  pub smoke_iff :
      (salt : Bytes ⊎ Bytes) (url : Bytes)
      → (exit_code (smoke lib env salt url).0 ≡ 0) ↔ (
          (n : NewClient) × (new_client lib false salt (with_gateway_url (gateway_of url) ∷ [])
            ≡ ok n)
          × Passes n)
  unfolding smoke exit_code
  smoke_iff salt url =
      let r = new_client lib false salt (with_gateway_url (gateway_of url) ∷ []) in
      let verdict = exit_code_iff (started lib env r).0 in
      (λ h. (started_iff r).0 (verdict.0 h), λ x. verdict.1 ((started_iff r).1 x))
    where
      exit_code_iff : (v : Verdict) → (exit_code v ≡ 0) ↔ (v ≡ passed)
      exit_code_iff passed = (λ h. refl, λ h. refl)
      exit_code_iff (fail why) = (λ h. absurd (omega arith), λ h. cc)
