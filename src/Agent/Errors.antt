-- ===== src/Agent/Errors.antt =====
-- errors.py: `ProviderError` with what its constructor normalizes, and the message that agent.py
-- makes of one. The text of the exception itself is never shown and is left out.
use fakuicode.Prelude.{
  ℕ, ◌+◌, ◌-◌, ◌*◌, ◌/◌, Bool, true, false, not, ◌&&◌, ◌||◌, Option, none, some, List, [], ◌∷◌,
  ◌++◌, Text, codes, text_eq, leb, ◌==◌, length, any, if◌then◌else◌,
}

pub data Category : Type 0 where
  other transient context_overflow : Category

pub record ProviderError : Type 0 where
  pub category : Category
  pub retryable : Bool
  pub status_code : Option ℕ
  pub error_type : Option Text
  pub failure_phase : Option Text
  pub request_id : Option Text

abbrev failure_phases : List Text
failure_phases =
    codes "request"
    ∷ codes "http_status"
    ∷ codes "stream_event"
    ∷ codes "stream_transport"
    ∷ codes "stream_format"
    ∷ []

abbrev error_types : List Text
error_types =
    codes "invalid_request_error"
    ∷ codes "authentication_error"
    ∷ codes "billing_error"
    ∷ codes "permission_error"
    ∷ codes "not_found_error"
    ∷ codes "request_too_large"
    ∷ codes "rate_limit_error"
    ∷ codes "api_error"
    ∷ codes "overloaded_error"
    ∷ codes "unknown_error"
    ∷ []

-- `value if value in values else None`
abbrev keep_if : {A : Type 0} → (A → Bool) → Option A → Option A
keep_if p none = none
keep_if p (some a) = if p a then some a else none

is_id_char : ℕ → Bool
is_id_char c =
    leb b'0' c && leb c b'9'
    || leb b'a' c && leb c b'z'
    || leb b'A' c && leb c b'Z'
    || c == b'.'
    || c == b'_'
    || c == b':'
    || c == b'-'

is_request_id : Text → Bool
unfolding is_id_char any
is_request_id value =
    leb 1 (length value) && leb (length value) 128 && not (any (λ c. not (is_id_char c)) value)

-- On a value that is a text or None.
unfoldable pub normalize_provider_request_id : Option Text → Option Text
unfolding is_request_id
normalize_provider_request_id value = keep_if is_request_id value

category_of : Bool → Category → Category
category_of true other = transient
category_of retryable category = category

is_transient : Category → Bool
is_transient transient = true
is_transient _ = false

-- `ProviderError.__init__`
unfoldable pub provider_error :
    Bool → Category → Option ℕ → Option Text → Option Text → Option Text → ProviderError
unfolding category_of is_transient any
provider_error retryable category status_code error_type failure_phase request_id = record {
  category = category_of retryable category;
  retryable = retryable || is_transient category;
  status_code = keep_if (λ n. leb 100 n && leb n 599) status_code;
  error_type = keep_if (λ t. any (text_eq t) error_types) error_type;
  failure_phase = keep_if (λ t. any (text_eq t) failure_phases) failure_phase;
  request_id = normalize_provider_request_id request_id;
}

-- `ProviderError(message)`
abbrev pub plain_error : ProviderError
plain_error = record {
  category = other;
  retryable = false;
  status_code = none;
  error_type = none;
  failure_phase = none;
  request_id = none;
}

-- A number of three digits, as all status codes are.
abbrev three_digits : ℕ → Text
three_digits n = (48 + n / 100) ∷ (48 + (n / 10 - 10 * (n / 100))) ∷ (48 + (n - 10 * (n / 10))) ∷ []

abbrev detail : {A : Type 0} → (A → Text) → Option A → List Text
detail show none = []
detail show (some a) = show a ∷ []

join_details : List Text → Text
join_details [] = []
join_details (t ∷ []) = t
join_details (t ∷ u ∷ ts) = t ++ (codes "; " ++ join_details (u ∷ ts))

error_details : ProviderError → List Text
unfolding any
error_details e =
    detail (λ n. codes "HTTP " ++ three_digits n) e.status_code
    ++ (detail (λ t. codes "type=" ++ t) (keep_if (λ t. any (text_eq t) error_types) e.error_type)
        ++ (detail (λ t. codes "phase=" ++ t)
              (keep_if (λ t. any (text_eq t) failure_phases) e.failure_phase)
            ++ detail (λ t. codes "request=" ++ t) (normalize_provider_request_id e.request_id)))

message_of : List Text → Text
unfolding join_details
message_of [] = codes "Agent stopped because the provider stream failed."
message_of (t ∷ ts) =
    codes "Agent stopped because the provider request failed ("
    ++ (join_details (t ∷ ts) ++ codes ").")

unfoldable pub provider_error_message : ProviderError → Text
unfolding message_of error_details
provider_error_message e = message_of (error_details e)
