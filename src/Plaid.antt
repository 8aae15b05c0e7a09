-- ===== src/Plaid.antt =====
-- networth/plaid/errors.py: the one place where a Plaid error becomes an Item state; and the record
-- `ItemStatus` of networth/plaid/client.py. `repr` is Python's `repr` of a text.
pub mod Details
pub mod States
use Prim.Native.String.{◌++◌}
use networth.Prelude.{
  ℕ, Bool, true, false, Option, none, some, String, List, [], ◌∷◌, str_eq, any, if◌then◌else◌,
}
use networth.Model.Item.{ItemState, healthy, degraded, needs_reauth, revoked, owner_actionable}

pub record Classification : Type 0 where
  pub state : Option ItemState
  pub item_state_observed : Bool
  pub recognised : Bool
  pub error_code : Option String
  pub error_type : Option String
  pub detail : String

abbrev pub asks_owner_to_act : Option ItemState → Bool
asks_owner_to_act none = false
asks_owner_to_act (some s) = owner_actionable s

-- `_CODE_STATES`
abbrev pub code_states : List (String × ItemState)
code_states =
    ("ITEM_LOGIN_REQUIRED", needs_reauth)
    ∷ ("PENDING_EXPIRATION", needs_reauth)
    ∷ ("ITEM_NOT_FOUND", revoked)
    ∷ ("USER_PERMISSION_REVOKED", revoked)
    ∷ []

-- `_NO_TRANSITION_CODES`
abbrev pub no_transition_codes : List String
no_transition_codes = "PENDING_DISCONNECT" ∷ []

-- `_TYPE_STATES`
abbrev pub type_states : List (String × ItemState)
type_states =
    ("INSTITUTION_ERROR", degraded)
    ∷ ("RATE_LIMIT_EXCEEDED", degraded)
    ∷ ("API_ERROR", degraded)
    ∷ ("ITEM_ERROR", degraded)
    ∷ ("INVALID_REQUEST", degraded)
    ∷ ("INVALID_INPUT", degraded)
    ∷ []

-- `dict.get`
unfoldable pub lookup : String → List (String × ItemState) → Option ItemState
lookup key [] = none
lookup key ((k, s) ∷ rest) = elim (str_eq key k) [ true ↦ some s | false ↦ lookup key rest ]

abbrev pub or_degraded : Option ItemState → ItemState
or_degraded none = degraded
or_degraded (some s) = s

abbrev pub or_empty : Option String → String
or_empty none = ""
or_empty (some s) = s

-- `_TYPE_STATES.get(error_type or "", _UNKNOWN_TYPE_STATE)`
unfoldable pub provisional : Option String → ItemState
unfolding lookup
provisional error_type = or_degraded (lookup (or_empty error_type) type_states)

-- `ItemState.value`
abbrev pub state_value : ItemState → String
state_value healthy = "HEALTHY"
state_value degraded = "DEGRADED"
state_value needs_reauth = "NEEDS_REAUTH"
state_value revoked = "REVOKED"

-- `HEALTHY`
abbrev pub healthy_classification : Classification
healthy_classification = record {
  state = some healthy;
  item_state_observed = true;
  recognised = true;
  error_code = none;
  error_type = none;
  detail = "the call succeeded and the Item carries no error";
}

abbrev pub malformed_response : String → Classification
malformed_response detail = record {
  state = some degraded;
  item_state_observed = false;
  recognised = false;
  error_code = none;
  error_type = none;
  detail = "unreadable Plaid response: " ++ detail;
}

abbrev pub transport_failure : String → Classification
transport_failure detail = record {
  state = some degraded;
  item_state_observed = false;
  recognised = true;
  error_code = none;
  error_type = none;
  detail = "transport-level failure, no Plaid response: " ++ detail;
}

abbrev pub advance_warning : String → Option String → Classification
advance_warning code error_type = record {
  state = none;
  item_state_observed = true;
  recognised = true;
  error_code = some code;
  error_type = error_type;
  detail =
      "recognised advance warning; not a state transition — the Item is not "
      ++ "in an error state (section 8.2, F8)";
}

abbrev pub known_error : String → Option String → ItemState → Classification
known_error code error_type s = record {
  state = some s;
  item_state_observed = true;
  recognised = true;
  error_code = some code;
  error_type = error_type;
  detail = code ++ (" maps to " ++ (state_value s ++ " (section 8.2)"));
}

module _ (repr : String → String) where
  abbrev pub repr_optional : Option String → String
  repr_optional none = "None"
  repr_optional (some s) = repr s

  abbrev pub error_without_code : Option String → Classification
  error_without_code error_type = record {
    state = some (provisional error_type);
    item_state_observed = true;
    recognised = false;
    error_code = none;
    error_type = error_type;
    detail =
        "error object carrying no code; "
        ++ (state_value (provisional error_type)
            ++ (" is provisional, chosen from error_type " ++ repr_optional error_type));
  }

  abbrev pub unknown_error : String → Option String → Classification
  unknown_error code error_type = record {
    state = some (provisional error_type);
    item_state_observed = true;
    recognised = false;
    error_code = some code;
    error_type = error_type;
    detail =
        "unrecognised code "
        ++ (repr code
            ++ ("; "
                ++ (state_value (provisional error_type)
                    ++ (" is provisional, chosen from error_type " ++ repr_optional error_type))));
  }

  abbrev pub mapped_error : String → Option String → Option ItemState → Classification
  mapped_error code error_type none = unknown_error code error_type
  mapped_error code error_type (some s) = known_error code error_type s

  unfoldable pub classify_error : Option String → Option String → Classification
  unfolding lookup
  classify_error none error_type = error_without_code error_type
  classify_error (some code) error_type =
      if any (str_eq code) no_transition_codes
      then advance_warning code error_type
      else mapped_error code error_type (lookup code code_states)

-- `ItemStatus` of networth/plaid/client.py, less `request_id`, which the poller does not read.
pub record ItemStatus : Type 0 where
  pub item_id : Option String
  pub classification : Classification
  pub investments_status_observed : Bool
  pub investments_last_successful_update : Option ℕ
