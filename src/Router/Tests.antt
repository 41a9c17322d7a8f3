-- ===== src/Router/Tests.antt =====
-- The router at three models of two providers.
use garis.Base.{
  ℕ, ◌≡◌, refl, String, Bool, true, false, Option, none, List, [], ◌∷◌, count, if◌then◌else◌,
}
use garis.Dict
use garis.Health.{network_timeout}
use garis.Router.{
  ModelSpec, Need, Provider, Choice, Completion, ModelRouter, Call, completed, has_failed, chat,
  tools, any_place, local_only, choice_of, profile, candidates, spread, complete, ranks_before,
}
use garis.Router.Complete.{complete_answers, is_answered, is_completed}
use garis.Router.Private.{complete_private, is_cloud}
use garis.Router.Spread.{count-spread}

abbrev same_text : String → String
same_text s = s

abbrev never : String → String → Bool
never s t = false

abbrev no_digits : String → Option ℕ
no_digits s = none

abbrev model : String → String → ℕ → Bool → ModelSpec
model name provider quality here = record {
  name = name;
  provider = provider;
  jobs = chat ∷ [];
  capabilities = tools ∷ [];
  quality = quality;
  speed = 50;
  input_cost = 100;
  output_cost = 200;
  context_tokens = 8000;
  local = here;
}

abbrev opus : ModelSpec
opus = model "opus" "anthropic" 95 false

abbrev haiku : ModelSpec
haiku = model "haiku" "anthropic" 70 false

abbrev llama : ModelSpec
llama = model "llama" "ollama" 40 true

abbrev anthropic : Provider
anthropic = record { name = "anthropic"; available = true; models = haiku ∷ opus ∷ [] }

abbrev ollama : Provider
ollama = record { name = "ollama"; available = true; models = llama ∷ [] }

abbrev router : ModelRouter
router = record {
  providers = anthropic ∷ ollama ∷ [];
  config = record { privacy = "quality_first"; allow_cloud = true; monthly_budget = 0 };
  health = none;
  input_tokens = 0;
  output_tokens = 0;
  spend = 0;
  fallbacks = [];
}

abbrev need : Need
need = record {
  job = chat;
  privacy = any_place;
  requires = tools ∷ [];
  max_cost = none;
  prefer_speed = false;
  min_context = 4000;
}

abbrev private_need : Need
private_need = record need { privacy = local_only }

abbrev reply : Completion
reply = record { text = "ok"; input_tokens = 3; output_tokens = 4; cost = 1; stub = false }

-- only the local provider answers
abbrev local_call : Call
local_call n c json = ((if c.model.local then completed reply else has_failed network_timeout), 10)

abbrev all_call : Call
all_call n c json = (completed reply, 10)

abbrev best_local : Choice
best_local = choice_of (profile router need) ollama llama

abbrev is_local : Choice → Bool
is_local c = c.model.local

names_of : List Choice → List String
names_of [] = []
names_of (c ∷ cs) = c.model.name ∷ names_of cs

ranked_names : names_of (candidates router need 0) ≡ "opus" ∷ "haiku" ∷ "llama" ∷ []
unfolding candidates names_of ranks_before
ranked_names = refl

spread_names : names_of (spread (candidates router need 0)) ≡ "opus" ∷ "llama" ∷ "haiku" ∷ []
unfolding candidates spread names_of ranks_before Dict.put Dict.get
spread_names = refl

count-spread_example :
    count is_cloud (spread (best_local ∷ choice_of (profile router need) anthropic opus ∷ []))
    ≡ count is_cloud (best_local ∷ choice_of (profile router need) anthropic opus ∷ [])
count-spread_example =
    count-spread is_cloud (best_local ∷ choice_of (profile router need) anthropic opus ∷ [])

local_works :
    (n : ℕ) (c : Choice) (j : Bool) → is_local c ≡ true → is_completed (local_call n c j).0 ≡ true
local_works n c j h = rw h refl

complete_answers_example :
    is_answered (complete same_text never no_digits router need local_call false 1 0).0 ≡ true
unfolding candidates choice_of profile ranks_before
complete_answers_example =
    complete_answers same_text never no_digits router need local_call false 1 0 is_local "ollama"
      best_local local_works refl refl

same_local :
    (n : ℕ) (c : Choice) (j : Bool) → c.model.local ≡ true → local_call n c j ≡ all_call n c j
same_local n c j h = rw h refl

complete_private_example :
    complete same_text never no_digits router private_need local_call false 1 0
    ≡ complete same_text never no_digits router private_need all_call false 1 0
complete_private_example =
    complete_private same_text never no_digits local_call all_call same_local router private_need
      false 1 0 refl
