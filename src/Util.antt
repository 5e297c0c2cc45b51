-- ===== src/Util.antt =====
-- src/util/erorr.rs: the error types of the program.
-- The std::io::Error and toml::de::Error inside an error are kept by their Display texts, the
-- only thing that the program reads of them.
use nusa_launchd.Shared.{String, suc, ◌≡◌, refl, [], ◌∷◌}
use nusa_launchd.Shared.Int.{ℤ, pos, negsuc}
use nusa_launchd.Text.{concat, decimal}

pub data ConfigError : Type 0 where
  parse : String → ConfigError
  validation : String → ConfigError
  file_not_found : String → ConfigError
  unsupported_format : ConfigError
  toml : String → ConfigError

pub data ProcessError : Type 0 where
  spawn : String → ProcessError
  exit : ℤ → ProcessError
  signal : ℤ → ProcessError
  timeout : ProcessError
  other : String → ProcessError

pub data NusaError : Type 0 where
  config : ConfigError → NusaError
  process : ProcessError → NusaError
  io : String → NusaError
  job_not_found : String → NusaError
  job_exists : String → NusaError
  system : String → NusaError

-- std's Result, and the `?` of a function that returns one.
pub data Result {ℓ} (E A : Type ℓ) : Type ℓ where
  ok : A → Result E A
  err : E → Result E A

infixl 5 ◌>>=◌ ◌>>◌
abbrev pub ◌>>=◌ {ℓ} : {E A B : Type ℓ} → Result E A → (A → Result E B) → Result E B
err e >>= next = err e
ok a >>= next = next a

abbrev pub ◌>>◌ {ℓ} : {E B : Type ℓ} → Result E (Unit {ℓ}) → Result E B → Result E B
ok a >> k = k
err e >> k = err e

abbrev pub map_err {ℓ} : {E F A : Type ℓ} → (E → F) → Result E A → Result F A
map_err f (ok a) = ok a
map_err f (err e) = err (f e)

-- The Display of an i32.
unfoldable pub signed : ℤ → String
unfolding decimal
signed (pos n) = decimal n
signed (negsuc n) = concat ("-" ∷ decimal (suc n) ∷ [])

-- The #[error] texts.
unfoldable pub display_config : ConfigError → String
display_config (parse m) = concat ("Failed to parse config: " ∷ m ∷ [])
display_config (validation m) = concat ("Invalid config: " ∷ m ∷ [])
display_config (file_not_found p) = concat ("File '" ∷ p ∷ "' not found" ∷ [])
display_config unsupported_format = "Unsupported config format"
display_config (toml m) = concat ("TOML parsing error: " ∷ m ∷ [])

unfoldable pub display_process : ProcessError → String
unfolding signed
display_process (spawn m) = concat ("Failed to spawn process: " ∷ m ∷ [])
display_process (exit code) = concat ("Process exited with code " ∷ signed code ∷ [])
display_process (signal s) = concat ("Process terminated by signal " ∷ signed s ∷ [])
display_process timeout = "Process timeout"
display_process (other m) = concat ("Process error: " ∷ m ∷ [])

unfoldable pub display : NusaError → String
unfolding display_config display_process
display (config e) = concat ("Config error: " ∷ display_config e ∷ [])
display (process e) = concat ("Process error: " ∷ display_process e ∷ [])
display (io m) = concat ("IO error: " ∷ m ∷ [])
display (job_not_found l) = concat ("Job '" ∷ l ∷ "' not found" ∷ [])
display (job_exists l) = concat ("Job '" ∷ l ∷ "' already exists" ∷ [])
display (system m) = concat ("System error: " ∷ m ∷ [])

-- From<String> for ProcessError.
unfoldable pub from_string : String → ProcessError
from_string s = other s

-- Inversion of a successful bind, and of a success behind `map_err`.
pub >>=-eq-ok {ℓ} :
    {E A B : Type ℓ} (r : Result E A) (next : A → Result E B) {b : B}
    → (r >>= next) ≡ ok b
    → (a : A) × (r ≡ ok a) × (next a ≡ ok b)
>>=-eq-ok (err e) next failed = cc
>>=-eq-ok (ok a) next rest = (a, refl, rest)

pub >>-eq-ok {ℓ} :
    {E B : Type ℓ} (m : Result E (Unit {ℓ})) (k : Result E B) {b : B}
    → (m >> k) ≡ ok b
    → (m ≡ ok tt) × (k ≡ ok b)
>>-eq-ok (ok tt) k h = (refl, h)
>>-eq-ok (err e) k h = cc

pub map_err-eq-ok {ℓ} :
    {E F A : Type ℓ} (f : E → F) (r : Result E A) {a : A} → map_err f r ≡ ok a → r ≡ ok a
map_err-eq-ok f (ok a) h = cc
map_err-eq-ok f (err e) h = cc
