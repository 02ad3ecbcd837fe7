-- ===== src/Identity/Store.antt =====
-- The `Store` struct of identity/memory/memory.go: its maps, `New`, and the keys of the maps.
-- The mutex makes each method one step, so a method is a function of the store.
use k8s_lab.Common.{String, Bool, false, List, [], ℕ, ◌+◌, ◌/◌, ◌%◌, ◌∷◌, ltb, if◌then◌else◌}
use k8s_lab.Common.Map.{Map}
use k8s_lab.Common.Result.{Result}
use k8s_lab.Common.Text.{Unicode, to_lower, trim_space, join}
use k8s_lab.Identity.{Error, Tenant, Account, Credential, Membership, Session}

pub record Store : Type 0 where
  pub tenants : Map String Tenant
  pub slugs : Map String String
  pub accounts : Map String Account
  pub emails : Map String String
  pub creds : Map String Credential
  pub members : Map String Membership
  pub sessions : Map (List ℕ) Session
  pub bootstrapped : Bool

unfoldable pub new : Store
new = record {
  tenants = [];
  slugs = [];
  accounts = [];
  emails = [];
  creds = [];
  members = [];
  sessions = [];
  bootstrapped = false;
}

abbrev pub Handler : Type 0 → Type 0
Handler A = Store → Result Error A × Store

unfoldable pub fold : Unicode → String → String
fold u email = to_lower u (trim_space u email)

unfoldable pub member_key : String → String → String
unfolding join
member_key account_id tenant_id = join account_id tenant_id

-- A hexadecimal digit of Go's `hex` table.
abbrev pub hex_digit : ℕ → ℕ
hex_digit n = if ltb n 10 then b'0' + n else b'a' + n % 10

-- hex.EncodeToString: two digits for each byte.
unfoldable pub encode_to_string : List ℕ → List ℕ
encode_to_string [] = []
encode_to_string (b ∷ bs) = hex_digit (b / 16) ∷ hex_digit (b % 16) ∷ encode_to_string bs
