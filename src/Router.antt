-- ===== src/Router.antt =====
-- Model selection: core/src/garis/models/router.py, with the specifications of models/base.py.
-- Weights, qualities and speeds are whole hundredths (weights thousandths), prices hundredths per
-- million tokens. A score is a gain less a loss, in units in which `candidates` needs no fraction. What
-- a provider answers is `Call`: the attempt's number, the choice and the mode give a completion or an
-- exception, and the reading of the clock. The sentences for the user are not modelled.
pub mod Spread
pub mod Complete
pub mod Private
mod Tests
use garis.Base.{
  ℕ, zero, suc, ◌+◌, ◌*◌, String, Bool, true, false, Option, none, some, List, [], ◌∷◌, ◌++◌, all,
  any, keep, length, contains, leb, ltb, nat_eq, not, max, ◌==◌, ◌&&◌, ◌||◌, if◌then◌else◌, text_le,
}
use garis.Dict
use garis.Dict.{Dict}
use garis.Health.{HealthMonitor, Exc, usable, note_failure}

pub data Capability : Type 0 where
  tools vision_input json_mode streaming long_context realtime_voice local_run : Capability

pub data Job : Type 0 where
  plan reason code chat classify summarize extract vision voice : Job

pub data Privacy : Type 0 where
  any_place prefer_local local_only : Privacy

abbrev pub job_rank : Job → ℕ
job_rank plan = 0
job_rank reason = 1
job_rank code = 2
job_rank chat = 3
job_rank classify = 4
job_rank summarize = 5
job_rank extract = 6
job_rank vision = 7
job_rank voice = 8

abbrev pub capability_rank : Capability → ℕ
capability_rank tools = 0
capability_rank vision_input = 1
capability_rank json_mode = 2
capability_rank streaming = 3
capability_rank long_context = 4
capability_rank realtime_voice = 5
capability_rank local_run = 6

-- `in`, for a frozenset given as a list
unfoldable pub has_job : Job → List Job → Bool
has_job j js = any (λ x. nat_eq (job_rank x) (job_rank j)) js

unfoldable pub has_capability : Capability → List Capability → Bool
has_capability c cs = any (λ x. nat_eq (capability_rank x) (capability_rank c)) cs

pub record ModelSpec : Type 0 where
  pub name : String
  pub provider : String
  pub jobs : List Job
  pub capabilities : List Capability
  pub quality : ℕ
  pub speed : ℕ
  pub input_cost : ℕ
  pub output_cost : ℕ
  pub context_tokens : ℕ
  pub local : Bool

pub record Need : Type 0 where
  pub job : Job
  pub privacy : Privacy
  pub requires : List Capability
  pub max_cost : Option ℕ
  pub prefer_speed : Bool
  pub min_context : ℕ

pub record Weights : Type 0 where
  pub quality : ℕ
  pub speed : ℕ
  pub cost : ℕ
  pub local_bonus : ℕ

pub data Profile : Type 0 where
  local_only_profile prefer_local_profile balanced quality_first : Profile

-- PROFILES
abbrev pub weights_of : Profile → Weights
weights_of local_only_profile = record { quality = 500; speed = 300; cost = 0; local_bonus = 1000 }
weights_of prefer_local_profile = record {
  quality = 550;
  speed = 250;
  cost = 200;
  local_bonus = 350;
}
weights_of balanced = record { quality = 600; speed = 200; cost = 200; local_bonus = 100 }
weights_of quality_first = record { quality = 850; speed = 100; cost = 50; local_bonus = 0 }

-- `config.privacy`; a name that is no profile counts as balanced
abbrev pub profile_named : String → Profile
profile_named name =
    if name == "local_only"
    then local_only_profile
    else if name == "prefer_local"
    then prefer_local_profile
    else if name == "quality_first"
    then quality_first
    else balanced

pub record Provider : Type 0 where
  pub name : String
  pub available : Bool
  pub models : List ModelSpec

pub record ModelsConfig : Type 0 where
  pub privacy : String
  pub allow_cloud : Bool
  pub monthly_budget : ℕ

pub record Choice : Type 0 where
  pub provider : Provider
  pub model : ModelSpec
  pub gain : ℕ
  pub loss : ℕ

pub record Completion : Type 0 where
  pub text : String
  pub input_tokens : ℕ
  pub output_tokens : ℕ
  pub cost : ℕ
  pub stub : Bool

pub record ModelRouter : Type 0 where
  pub providers : List Provider
  pub config : ModelsConfig
  pub health : Option HealthMonitor
  pub input_tokens : ℕ
  pub output_tokens : ℕ
  pub spend : ℕ
  -- `model.fallback`: provider and model
  pub fallbacks : List (String × String)

unfoldable pub replace : ModelRouter → List Provider → ModelRouter
replace r providers = record r { providers = providers }

unfoldable pub add : ModelRouter → Provider → ModelRouter
add r p = record r { providers = r.providers ++ p ∷ [] }

unfoldable pub reset_spend : ModelRouter → ModelRouter
reset_spend r = record r { spend = 0 }

abbrev healthy : Option HealthMonitor → String → ℕ → Bool
healthy none name now = true
healthy (some m) name now = usable m name now

-- `ModelRouter.usable`
unfoldable pub usable_provider : ModelRouter → Provider → ℕ → Bool
usable_provider r p now = p.available && healthy r.health p.name now

unfoldable pub over_budget : ModelRouter → Bool
over_budget r = not (nat_eq r.config.monthly_budget 0) && leb r.config.monthly_budget r.spend

abbrev pub profile_of : Privacy → String → Profile
profile_of local_only name = local_only_profile
profile_of prefer_local name = prefer_local_profile
profile_of any_place name = profile_named name

abbrev is_local_profile : Profile → Bool
is_local_profile local_only_profile = true
is_local_profile prefer_local_profile = true
is_local_profile _ = false

abbrev quality_critical : Job → Bool
quality_critical plan = true
quality_critical reason = true
quality_critical code = true
quality_critical _ = false

-- `_profile`: 0.6 of a quality is a whole number of thousandths for every profile
unfoldable pub profile : ModelRouter → Need → Weights
profile r need =
    let p = profile_of need.privacy r.config.privacy in
    let w = weights_of p in
    if quality_critical need.job && not (is_local_profile p)
    then record { quality = 800; speed = 100; cost = w.cost; local_bonus = 0 }
    else if need.prefer_speed
    then record {
      quality = less_quality p;
      speed = 500;
      cost = w.cost;
      local_bonus = w.local_bonus;
    }
    else w
  where
    less_quality : Profile → ℕ
    less_quality local_only_profile = 300
    less_quality prefer_local_profile = 330
    less_quality balanced = 360
    less_quality quality_first = 510

abbrev pub is_local_only : Privacy → Bool
is_local_only local_only = true
is_local_only _ = false

abbrev within_cost : Option ℕ → ModelSpec → Bool
within_cost none m = true
within_cost (some limit) m = leb (8000 * m.input_cost + 1500 * m.output_cost) (limit * 1000000)

-- the `continue`s of `candidates`
unfoldable pub eligible : ModelRouter → Need → ModelSpec → Bool
unfolding has_job has_capability over_budget
eligible r need m =
    has_job need.job m.jobs
    && (all (λ c. has_capability c m.capabilities) need.requires
        && (leb need.min_context m.context_tokens
            && ((m.local
                  || (not (is_local_only need.privacy)
                      && (r.config.allow_cloud && not (over_budget r))))
                && within_cost need.max_cost m)))

abbrev min_nat : ℕ → ℕ → ℕ
min_nat a b = if leb a b then a else b

-- the score in units of one four-millionth: `quality * 40`, a price index of at most 4000
unfoldable pub choice_of : Weights → Provider → ModelSpec → Choice
choice_of w p m = record {
  provider = p;
  model = m;
  gain =
      w.quality * m.quality * 40
      + (w.speed * m.speed * 40 + (if m.local then w.local_bonus * 4000 else 0));
  loss = w.cost * min_nat (m.input_cost + m.output_cost * 3) 4000;
}

-- `-score` first, then the name
unfoldable pub ranks_before : Choice → Choice → Bool
ranks_before a b =
    ltb (b.gain + a.loss) (a.gain + b.loss)
    || (nat_eq (b.gain + a.loss) (a.gain + b.loss) && text_le a.model.name b.model.name)

unfoldable pub insert_choice : Choice → List Choice → List Choice
insert_choice c [] = c ∷ []
insert_choice c (x ∷ xs) =
    let rest = insert_choice c xs in if ranks_before c x then c ∷ x ∷ xs else x ∷ rest

unfoldable pub sort_choices : List Choice → List Choice
unfolding insert_choice
sort_choices [] = []
sort_choices (c ∷ cs) = insert_choice c (sort_choices cs)

unfoldable pub choices_of : ModelRouter → Need → Provider → List ModelSpec → List Choice
unfolding eligible choice_of profile
choices_of r need p [] = []
choices_of r need p (m ∷ ms) =
    let rest = choices_of r need p ms in
    if eligible r need m then choice_of (profile r need) p m ∷ rest else rest

unfoldable pub all_choices : ModelRouter → Need → ℕ → List Provider → List Choice
unfolding choices_of usable_provider
all_choices r need now [] = []
all_choices r need now (p ∷ ps) =
    let rest = all_choices r need now ps in
    if usable_provider r p now then choices_of r need p p.models ++ rest else rest

unfoldable pub candidates : ModelRouter → Need → ℕ → List Choice
unfolding all_choices sort_choices
candidates r need now = sort_choices (all_choices r need now r.providers)

-- `by_provider`
abbrev with_choice : Option (List Choice) → Choice → List Choice
with_choice none c = c ∷ []
with_choice (some cs) c = cs ++ c ∷ []

abbrev pub grouped_with : Dict (List Choice) → Choice → Dict (List Choice)
grouped_with groups c =
    Dict.put groups c.provider.name (with_choice (Dict.get groups c.provider.name) c)

unfoldable pub group : Dict (List Choice) → List Choice → Dict (List Choice)
group groups [] = groups
group groups (c ∷ cs) = group (grouped_with groups c) cs

-- one round of `zip_longest`: the first of each group, and what is left of the groups
unfoldable pub heads : Dict (List Choice) → List Choice
heads [] = []
heads ((name, []) ∷ groups) = heads groups
heads ((name, c ∷ cs) ∷ groups) = c ∷ heads groups

unfoldable pub tails : Dict (List Choice) → Dict (List Choice)
tails [] = []
tails ((name, []) ∷ groups) = (name, []) ∷ tails groups
tails ((name, c ∷ cs) ∷ groups) = (name, cs) ∷ tails groups

unfoldable pub rounds : ℕ → Dict (List Choice) → List Choice
unfolding heads tails
rounds zero groups = []
rounds (suc n) groups = heads groups ++ rounds n (tails groups)

-- no group is longer than the ranking
unfoldable pub spread : List Choice → List Choice
unfolding group rounds
spread ranked = rounds (length ranked) (group [] ranked)

-- `{choice.provider.name for choice in ranked}`
unfoldable pub names : List String → List Choice → List String
names seen [] = seen
names seen (c ∷ cs) =
    names (if contains c.provider.name seen then seen else seen ++ c.provider.name ∷ []) cs

unfoldable pub take : ℕ → List Choice → List Choice
take n [] = []
take zero (c ∷ cs) = []
take (suc n) (c ∷ cs) = c ∷ take n cs

pub data CallEnd : Type 0 where
  completed : Completion → CallEnd
  has_failed : Exc → CallEnd

abbrev pub Call : Type 0
Call = ℕ → Choice → Bool → CallEnd × ℕ

pub data Answer : Type 0 where
  answered : Choice → Completion → Answer
  no_model : Answer
  all_failed : List String → Answer

-- `select`; `no_model` is `NoModelAvailable`
unfoldable pub select : ModelRouter → Need → ℕ → Option Choice
unfolding candidates
select r need now = elim (candidates r need now) [ [] ↦ none | c ∷ cs ↦ some c ]

-- `_record`
unfoldable pub counted : ModelRouter → Completion → ModelRouter
counted r c = record r {
  input_tokens = r.input_tokens + c.input_tokens;
  output_tokens = r.output_tokens + c.output_tokens;
  spend = r.spend + c.cost;
}

module _ (lower : String → String) (within : String → String → Bool)
    (digits : String → Option ℕ) where
  abbrev noted : Option HealthMonitor → String → Exc → ℕ → Option HealthMonitor
  noted none name exc now = none
  noted (some m) name exc now = some (note_failure lower within digits m name exc now)

  -- `_note_failure`
  unfoldable pub failed_at : ModelRouter → Choice → Exc → ℕ → ModelRouter
  failed_at r c exc now = record r {
    fallbacks = r.fallbacks ++ (c.provider.name, c.model.name) ∷ [];
    health = noted r.health c.provider.name exc now;
  }

  abbrev pub json_for : Choice → Bool → Bool
  json_for c wanted = wanted && has_capability json_mode c.model.capabilities

  -- one round of the loop of `complete`: `rest` goes on after a failure
  abbrev pub tried :
      ModelRouter
      → Choice
      → (ModelRouter → Answer × ModelRouter)
      → CallEnd × ℕ
      → Answer × ModelRouter
  tried r c rest (completed x, now) = (answered c x, counted r x)
  tried r c rest (has_failed exc, now) = rest (failed_at r c exc now)

  unfoldable pub attempts :
      Call → Bool → ℕ → List String → List Choice → ModelRouter → Answer × ModelRouter
  unfolding failed_at
  attempts call json n attempted [] r = (all_failed attempted, r)
  attempts call json n attempted (c ∷ cs) r =
      tried r c (attempts call json (suc n) (attempted ++ c.provider.name ∷ []) cs)
        (call n c (json_for c json))

  abbrev pub complete_ranked : Call → Bool → ℕ → List Choice → ModelRouter → Answer × ModelRouter
  complete_ranked call json max_attempts [] r = (no_model, r)
  complete_ranked call json max_attempts (c ∷ cs) r =
      attempts call json 0 []
        (take (max max_attempts (length (names [] (c ∷ cs)))) (spread (c ∷ cs))) r

  -- `complete`
  unfoldable pub complete : ModelRouter → Need → Call → Bool → ℕ → ℕ → Answer × ModelRouter
  unfolding attempts candidates
  complete r need call json max_attempts now =
      complete_ranked call json max_attempts (candidates r need now) r
