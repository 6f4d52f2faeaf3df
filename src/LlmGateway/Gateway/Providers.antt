-- ===== src/LlmGateway/Gateway/Providers.antt =====
-- gateway.go and config.go: which client serves a request.
use claw_hermes_ai_go.Base.{
  ◌≡◌, refl, sym, ◌∙◌, inl, inr, ◌↔◌, Bool, true, false, Option, none, some, [], ◌∷◌, String,
  str_eq, eq_iff, if◌then◌else◌, Bool-cases, Option-cases, All,
}
use mathlib.Core.Option
use claw_hermes_ai_go.Base.Dict.{Dict, lookup, lookup-insert}
use claw_hermes_ai_go.LlmGateway.Types.{LlmClient, EmbeddingClient}
use claw_hermes_ai_go.LlmGateway.Gateway.{
  Gateway, provider_qwen, provider_zhipu, new_gateway, register_client, register_embedding_client,
  set_default, health, Config, add_provider, initialize_gateway,
}

-- The clients of a provider, as the configuration means them.
pub client_for :
    (qwen zhipu : String → LlmClient × EmbeddingClient)
    → Config
    → String
    → Option (LlmClient × EmbeddingClient)
client_for qwen zhipu cfg p =
    if str_eq provider_zhipu p
    then (if str_eq cfg.zhipu_api_key "" then none else some (zhipu cfg.zhipu_api_key))
    else if str_eq provider_qwen p
    then (if str_eq cfg.qwen_api_key "" then none else some (qwen cfg.qwen_api_key))
    else none

lookup-add_provider :
    (make : String → LlmClient × EmbeddingClient) (p key q : String) (g : Gateway)
    → (lookup q (add_provider make p key g).clients ≡ (
        if str_eq key ""
        then lookup q g.clients
        else if str_eq p q
        then some (make key).0
        else lookup q g.clients))
      × (lookup q (add_provider make p key g).embedding_clients ≡ (
          if str_eq key ""
          then lookup q g.embedding_clients
          else if str_eq p q
          then some (make key).1
          else lookup q g.embedding_clients))
unfolding add_provider register_client register_embedding_client
lookup-add_provider make p key q g = elim (Bool-cases (str_eq key "")) [
  | inl e ↦ (rw e refl, rw e refl)
  | inr e ↦ (rw e (lookup-insert p q _ g.clients), rw e (lookup-insert p q _ g.embedding_clients))
]

-- The later of two writes that are made without a mark, to different keys.
chosen :
    {A B : Type 0} (f : A → B) (a b : A) (no_a no_b is_a is_b : Bool)
    → (is_a ≡ true → is_b ≡ false)
    → (if no_a
        then (if no_b then none else if is_b then some (f b) else none)
        else if is_a
        then some (f a)
        else if no_b
        then none
        else if is_b
        then some (f b)
        else none)
      ≡ Option.map f (
          if is_a
          then (if no_a then none else some a)
          else if is_b
          then (if no_b then none else some b)
          else none)
chosen f a b no_a no_b true true apart = absurd (cc (apart refl))
chosen f a b true true true false apart = refl
chosen f a b true false true false apart = refl
chosen f a b false no_b true false apart = refl
chosen f a b true true false true apart = refl
chosen f a b true false false true apart = refl
chosen f a b false true false true apart = refl
chosen f a b false false false true apart = refl
chosen f a b true true false false apart = refl
chosen f a b true false false false apart = refl
chosen f a b false true false false apart = refl
chosen f a b false false false false apart = refl

apart_keys : (p : String) → str_eq provider_zhipu p ≡ true → str_eq provider_qwen p ≡ false
apart_keys p e = rw (sym ((eq_iff provider_zhipu p).0 e)) refl

-- A gateway that is set up from a configuration has a client for a provider exactly if the provider is
-- Qwen or Zhipu and its key is set; the client is then made from this key, for completions and for
-- embeddings. The default is the configured provider, or Qwen if none is configured.
pub initialize_gateway-clients :
    (qwen zhipu : String → LlmClient × EmbeddingClient) (cfg : Config) (p : String)
    → let g = initialize_gateway qwen zhipu cfg in
      (lookup p g.clients ≡ Option.map (λ c. c.0) (client_for qwen zhipu cfg p))
      × (lookup p g.embedding_clients ≡ Option.map (λ c. c.1) (client_for qwen zhipu cfg p))
      × (g.default_provider
          ≡ (if str_eq cfg.default_provider "" then provider_qwen else cfg.default_provider))
unfolding initialize_gateway set_default client_for lookup
initialize_gateway-clients qwen zhipu cfg p =
    let first = add_provider qwen provider_qwen cfg.qwen_api_key new_gateway in
    let (c, e) = lookup-add_provider zhipu provider_zhipu cfg.zhipu_api_key p first in
    let (d, f) = lookup-add_provider qwen provider_qwen cfg.qwen_api_key p new_gateway in
    (
      c ∙ rw d (chosen (λ x. x.0) _ _ _ _ _ _ (apart_keys p)),
      e ∙ rw f (chosen (λ x. x.1) _ _ _ _ _ _ (apart_keys p)),
      refl,
    )

-- All clients are well exactly if the health check finds no error.
pub health-none :
    (cs : Dict LlmClient)
    → (health cs ≡ none) ↔ All (λ (entry : String × LlmClient). entry.1.health ≡ none) cs
unfolding health
health-none [] = (λ e. tt, λ a. refl)
health-none ((p, c) ∷ cs) = elim (Option-cases c.health) [
  | inl e ↦ (λ h. (e, (health-none cs).0 (rw e at h)), λ a. rw e ((health-none cs).1 a.1))
  | inr (x, e) ↦ (λ h. absurd (cc (rw e at h)), λ a. absurd (cc (e, a.0)))
]
