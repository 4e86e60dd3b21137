-- ===== src/Config/Loads.antt =====
-- What a loaded configuration guarantees (internal/config/config.go).
use acp_kv.Prelude.{
  Bool-cases, String, inl, if◌then◌else◌, str_eq, str_eq_iff, ◌≢◌, ◌<ℤ◌, subst, Option, arith, inr,
  none, pos, length, ◌+◌, ◌<◌, ◌^◌, ◌↔◌, ◌≡◌, ap, refl, sym, some,
}
use acp_kv.Config.{validate}
use acp_kv.Config.Load.{Environment, Loaded, checked, or_default, load_config, read_config}
use acp_kv.Config.Valid.{IsSound, validate_iff}
use acp_kv.Failure.{Error}
use acp_kv.Prelude.Float64.{Float64}

read_config-n :
    (F : Float64) (env : Environment F)
    → (read_config F env).config.n ≡ pos (length (read_config F env).config.peers + 1)
unfolding read_config
read_config-n F env = refl

pub read_config_few :
    (F : Float64) (env : Environment F)
    → length (read_config F env).config.peers + 1 < 2 ^ 62
    → (read_config F env).config.n <ℤ pos (2 ^ 62)
read_config_few F env small = rw read_config-n (omega arith)

checked_iff :
    (F : Float64) (read loaded : Loaded F) (o : Option Error)
    → ((o ≡ none) ↔ IsSound read.config)
    → (checked F read o ≡ inr loaded) ↔ ((loaded ≡ read) × IsSound loaded.config)
unfolding checked
checked_iff F read loaded none sound = (
  λ e.
      let same : read ≡ loaded = cc (e) in
      (sym same, subst (λ (l : Loaded F). IsSound l.config) same (sound.0 refl)),
  λ h. ap inr (sym h.0),
)
checked_iff F read loaded (some x) sound = (
  λ e. absurd (cc (e)),
  λ h. absurd (cc (sound.1 (subst (λ (l : Loaded F). IsSound l.config) h.0 h.1))),
)

-- `LoadConfig` succeeds exactly where what the environment asks for is sound, and returns just that;
-- the number of nodes is then one more than the peers. There are fewer than 2^62 - 1 peers.
pub load_config_iff :
    (F : Float64) (env : Environment F) (loaded : Loaded F)
    → length (read_config F env).config.peers + 1 < 2 ^ 62
    → ((load_config F env ≡ inr loaded) ↔ ((loaded ≡ read_config F env) × IsSound loaded.config))
      × ((read_config F env).config.n ≡ pos (length (read_config F env).config.peers + 1))
unfolding load_config
load_config_iff F env loaded small =
    let few = read_config_few F env small in
    (
      checked_iff F (read_config F env) loaded (validate (read_config F env).config)
          (validate_iff (read_config F env).config few),
      read_config-n F env,
    )

-- What a variable sets: its default where it is not set or does not parse, and else what it parses to.
pub record IsSetting {A : Type 0} (text : String) (parsed : Option A) (default_value value : A)
    : Type 0 where
  pub unset : text ≡ "" → value ≡ default_value
  pub unreadable : text ≢ "" → parsed ≡ none → value ≡ default_value
  pub set : (a : A) → text ≢ "" → parsed ≡ some a → value ≡ a

pub or_default-IsSetting :
    {A : Type 0} (text : String) (parsed : Option A) (d : A)
    → IsSetting text parsed d (if str_eq text "" then d else or_default d parsed)
unfolding or_default
or_default-IsSetting text parsed d = elim (Bool-cases (str_eq text "")) [
  | inl e ↦ rw e (record {
    unset = λ q. refl;
    unreadable = λ ne q. refl;
    set = λ a ne q. absurd (ne ((str_eq_iff text "").0 e));
  })
  | inr e ↦ rw e (record {
    unset = λ q. absurd (cc (e, (str_eq_iff text "").1 q));
    unreadable = λ ne q. rw q refl;
    set = λ a ne q. rw q refl;
  })
]
