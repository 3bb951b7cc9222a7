-- ===== src/ProbeOps/Slots.antt =====
-- src/lws/probe_ops.py: a slot as a JSON object and back, and the test of a window against it.
use localshell_web_superviso.Base.{
  ℕ, ◌*◌, ◌/◌, Option, none, some, String, [], ◌∷◌, ◌==◌, if◌then◌else◌, Outcome, ok, raise,
  key_error, value_error, ◌>>=◌, ◌≡◌, refl,
}
use localshell_web_superviso.Models.Mutation.{
  ProbeWindowSlotBinding, Scalar, text, whole, moment, Snapshot,
}

-- Python's conversions between numbers and texts: `str` of a number and of a time, `int` and
-- `float` of a text, where `none` is a ValueError
pub record Conversions : Type 0 where
  pub str_of_int : ℕ → String
  pub str_of_float : ℕ → String
  pub int_of_text : String → Option ℕ
  pub float_of_text : String → Option ℕ

-- `snapshot[key]`
abbrev pub item : String → Snapshot → Outcome Scalar
item key [] = raise (key_error key)
item key ((k, v) ∷ entries) = if k == key then ok v else item key entries

abbrev pub or_value_error : Option ℕ → Outcome ℕ
or_value_error none = raise (value_error "invalid literal")
or_value_error (some n) = ok n

-- `str(value)`
abbrev pub str_of : Conversions → Scalar → Outcome String
str_of c (text t) = ok t
str_of c (whole n) = ok (c.str_of_int n)
str_of c (moment m) = ok (c.str_of_float m)

-- `int(value)`
abbrev pub int_of : Conversions → Scalar → Outcome ℕ
int_of c (text t) = or_value_error (c.int_of_text t)
int_of c (whole n) = ok n
int_of c (moment m) = ok (m / 1000)

-- `float(value)`, in milliseconds
abbrev pub float_of : Conversions → Scalar → Outcome ℕ
float_of c (text t) = or_value_error (c.float_of_text t)
float_of c (whole n) = ok (n * 1000)
float_of c (moment m) = ok m

-- `asdict(slot)`
abbrev pub entries_of : ProbeWindowSlotBinding → Snapshot
entries_of slot =
    ("slot_id", text slot.slot_id)
    ∷ ("owner_token", text slot.owner_token)
    ∷ ("target_worker_id", text slot.target_worker_id)
    ∷ ("target_conversation_url", text slot.target_conversation_url)
    ∷ ("actual_url", text slot.actual_url)
    ∷ ("window_handle", whole slot.window_handle)
    ∷ ("browser_pid", whole slot.browser_pid)
    ∷ ("chrome_executable", text slot.chrome_executable)
    ∷ ("source", text slot.source)
    ∷ ("bound_at", moment slot.bound_at)
    ∷ ("observed_at", moment slot.observed_at)
    ∷ ("expires_at", moment slot.expires_at)
    ∷ []

unfoldable pub snapshot_probe_slot : Option ProbeWindowSlotBinding → Option Snapshot
snapshot_probe_slot none = none
snapshot_probe_slot (some slot) = some (entries_of slot)

abbrev pub slot_of : Conversions → Snapshot → Outcome ProbeWindowSlotBinding
slot_of c s = do
  slot_id ← item "slot_id" s >>= str_of c
  owner_token ← item "owner_token" s >>= str_of c
  target_worker_id ← item "target_worker_id" s >>= str_of c
  target_conversation_url ← item "target_conversation_url" s >>= str_of c
  actual_url ← item "actual_url" s >>= str_of c
  window_handle ← item "window_handle" s >>= int_of c
  browser_pid ← item "browser_pid" s >>= int_of c
  chrome_executable ← item "chrome_executable" s >>= str_of c
  source ← item "source" s >>= str_of c
  bound_at ← item "bound_at" s >>= float_of c
  observed_at ← item "observed_at" s >>= float_of c
  expires_at ← item "expires_at" s >>= float_of c
  ok (record {
    slot_id = slot_id;
    owner_token = owner_token;
    target_worker_id = target_worker_id;
    target_conversation_url = target_conversation_url;
    actual_url = actual_url;
    window_handle = window_handle;
    browser_pid = browser_pid;
    chrome_executable = chrome_executable;
    source = source;
    bound_at = bound_at;
    observed_at = observed_at;
    expires_at = expires_at;
  })

unfoldable pub slot_from_snapshot :
    Conversions → Option Snapshot → Outcome (Option ProbeWindowSlotBinding)
slot_from_snapshot c none = ok none
slot_from_snapshot c (some s) = slot_of c s >>= λ slot. ok (some slot)

-- A slot comes back from its snapshot as it was.
pub slot_from_snapshot-snapshot :
    (c : Conversions) (slot : Option ProbeWindowSlotBinding)
    → slot_from_snapshot c (snapshot_probe_slot slot) ≡ ok slot
unfolding slot_from_snapshot snapshot_probe_slot
slot_from_snapshot-snapshot c none = refl
slot_from_snapshot-snapshot c (some slot) = refl
