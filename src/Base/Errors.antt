-- ===== src/Base/Errors.antt =====
-- Outcomes of code that may throw.
use mathlib.Core.Path.{◌≡◌, refl}

-- The exceptions that the library throws, one constructor for each message, `fault` for an
-- access that C++ leaves undefined, and `json_fuel_spent` for a recursion of the model that its
-- fuel would cut off.
pub data Error : Type 0 where
  fault : Error
  invalid_argument out_of_range : Error
  url_path_missing href_scheme_missing href_host_missing href_path_missing : Error
  read_closed read_failed write_closed write_failed : Error
  timeouts_closed timeouts_invalid timeouts_refused : Error
  cookie_name_invalid cookie_value_invalid : Error
  status_unexpected header_written_twice : Error
  frame_bit_invalid opcode_invalid read_buffer_clogged : Error
  websocket_read_closed websocket_write_closed handshake_method handshake_headers : Error
  json_too_large json_empty json_string_bounds json_quote_unescaped json_backslash_last : Error
  json_backslash_single json_escape_incomplete json_escape_invalid json_object_scope : Error
  json_array_scope json_literal_long json_literal_unknown json_type json_fuel_spent : Error
  buffer_too_long root_missing root_not_directory : Error
  events_closed already_running bind_address_invalid handler_missing : Error
  socket_refused reuse_refused bind_addr_undefined bind_refused listen_refused : Error
  next_closed accept_terminated listener_shutdown_failed listener_close_failed : Error

pub data Result {ℓ} (A : Type ℓ) : Type ℓ where
  ok : A → Result A
  err : Error → Result A

infixl 5 ◌>>=◌
abbrev pub ◌>>=◌ {ℓ κ} : {A : Type ℓ} {B : Type κ} → Result A → (A → Result B) → Result B
ok a >>= f = f a
err e >>= f = err e

-- What a chain that succeeded went through.
pub >>=-eq-ok {ℓ κ} :
    {A : Type ℓ} {B : Type κ} (r : Result A) (next : A → Result B) {b : B}
    → (r >>= next) ≡ ok b
    → (a : A) × (r ≡ ok a) × (next a ≡ ok b)
>>=-eq-ok (err e) next h = absurd (cc)
>>=-eq-ok (ok a) next h = (a, refl, h)

pub >>=-map {ℓ κ μ} :
    {A : Type ℓ} {B : Type κ} {C : Type μ} (m : Result A) (g : A → B) (k : B → Result C)
    → ((m >>= λ a. ok (g a)) >>= k) ≡ (m >>= λ a. k (g a))
>>=-map (ok a) g k = refl
>>=-map (err e) g k = refl

-- Continuations that agree.
pub >>=-same {ℓ κ} :
    {A : Type ℓ} {B : Type κ} (r : Result A) {f g : A → Result B}
    → ((a : A) → f a ≡ g a)
    → (r >>= f) ≡ (r >>= g)
>>=-same (ok a) h = h a
>>=-same (err e) h = refl
