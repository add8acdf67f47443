-- ===== src/Config/Fixtures.antt =====
-- A figment of numbers, for the tests: the two ports of a server.
use swandns.Prelude.{
  Bool, false, ℕ, String, ◌≡◌, refl, sym, ap, ◌∙◌, ◌⊎◌, inl, inr, true, Option, none, some, Result,
  ok, err, ◌==◌, if◌then◌else◌, arith,
}
use swandns.Config.{ServerConfig, FigmentLibrary, default_server}
use swandns.Config.Layers.{or_value, IsFigment}

abbrev pub Ports : Type 0
Ports = String → Option ℕ

abbrev pub ports_of : ServerConfig → Ports
ports_of t key =
    if key == "dns_port"
    then some t.dns_port
    else if key == "api_port"
    then some t.api_port
    else none

abbrev with_ports : Option ℕ → Option ℕ → Result String ServerConfig
with_ports (some dns_port) (some api_port) =
    ok (record (default_server none "/tmp") { dns_port = dns_port; api_port = api_port })
with_ports (some _) none = err "api_port"
with_ports none _ = err "dns_port"

-- over the ports of a file and of the environment
abbrev pub figment : Ports → Ports → FigmentLibrary String ServerConfig
figment file env = record {
  Provider = Ports;
  Figment = Ports;
  defaults = ports_of;
  yaml_file = λ path. file;
  env_prefixed = λ prefix. env;
  from_provider = λ p. p;
  merge = λ p f key. or_value (p key) (f key);
  extract = λ f. with_ports (f "dns_port") (f "api_port");
}

-- of which every file and environment gives one configuration
abbrev pub settled : {E T : Type 0} → T → FigmentLibrary E T
settled t = record {
  Provider = Unit {0};
  Figment = Unit {0};
  defaults = λ defaults. tt;
  yaml_file = λ path. tt;
  env_prefixed = λ prefix. tt;
  from_provider = λ p. tt;
  merge = λ p f. tt;
  extract = λ f. ok t;
}

abbrev pub IsPortName : String → Type 0
IsPortName key = (key ≡ "dns_port") ⊎ (key ≡ "api_port")

abbrev pub HoldsPort : String → ℕ → ServerConfig → Type 0
HoldsPort key n t = (key ≡ "dns_port" → t.dns_port ≡ n) × (key ≡ "api_port" → t.api_port ≡ n)

with_ports-HoldsPort :
    (p q : Option ℕ) (t : ServerConfig)
    → with_ports p q ≡ ok t
    → (p ≡ some t.dns_port) × (q ≡ some t.api_port)
with_ports-HoldsPort (some m) (some n) t e = (ground (arith, e), ground (arith, e))
with_ports-HoldsPort (some m) none t e = cc
with_ports-HoldsPort none q t e = cc

pub extracted_lem :
    (f : Ports) (t : ServerConfig) (key : String) (n : ℕ)
    → with_ports (f "dns_port") (f "api_port") ≡ ok t
    → f key ≡ some n
    → HoldsPort key n t
extracted_lem f t key n e has =
    let (dns, api) = with_ports-HoldsPort (f "dns_port") (f "api_port") t e in
    (
      λ at. let same = sym dns ∙ ap f (sym at) ∙ has in ground (arith, same),
      λ at. let same = sym api ∙ ap f (sym at) ∙ has in ground (arith, same),
    )

abbrev is_dns_port : String → Bool
is_dns_port key = key == "dns_port"

ports-differ : (key : String) → key ≡ "dns_port" → key ≡ "api_port" → ⊥
ports-differ key dns api =
    let same : true ≡ false = sym (ap is_dns_port dns) ∙ ap is_dns_port api in cc same

pub defaults_lem :
    (t : ServerConfig) (key : String)
    → IsPortName key
    → (n : ℕ) × (ports_of t key ≡ some n) × HoldsPort key n t
defaults_lem t key (inl at) =
    (t.dns_port, ap (ports_of t) at, (λ _. refl, λ at'. absurd (ports-differ _ at at')))
defaults_lem t key (inr at) =
    (t.api_port, ap (ports_of t) at, (λ at'. absurd (ports-differ _ at' at), λ _. refl))

abbrev pub figment-IsFigment : (file env : Ports) → IsFigment (figment file env)
figment-IsFigment file env = record {
  Value = ℕ;
  IsField = IsPortName;
  Holds = HoldsPort;
  value = λ p key. p key;
  values = λ f key. f key;
  from_provider = λ p key. refl;
  merge = λ p f key. refl;
  defaults = defaults_lem;
  extracted = extracted_lem;
}
