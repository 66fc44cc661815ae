-- ===== src/Auth/Keys/Kinds.antt =====
-- The eight families of keys as one function, to state that no two of them ever meet.
use text.Mathlib.TextLemmas.{append_cancel_left}
use go_rest_boilerplate.Base.{String, ◌<>◌, List, ◌++◌, ℕ, ◌≡◌, ◌≢◌, refl, sym, ◌∙◌, arith}
use go_rest_boilerplate.Base.Codes.{codes, codes_of_eq}
use go_rest_boilerplate.Auth.Keys.{
  refresh_key, user_otp_key, otp_attempts_key, login_attempts_key, forgot_attempts_key,
  password_reset_key, user_reset_index_key, token_cutoff_key,
}

pub data KeyKind : Type 0 where
  session otp otp_count login_count forgot_count reset reset_index cutoff : KeyKind

abbrev pub key : KeyKind → String → String
key session = refresh_key
key otp = user_otp_key
key otp_count = otp_attempts_key
key login_count = login_attempts_key
key forgot_count = forgot_attempts_key
key reset = password_reset_key
key reset_index = user_reset_index_key
key cutoff = token_cutoff_key

abbrev prefix : KeyKind → String
prefix session = "refresh:"
prefix otp = "user_otp:"
prefix otp_count = "otp_attempts:"
prefix login_count = "login_attempts:"
prefix forgot_count = "forgot_attempts:"
prefix reset = "pwd_reset:"
prefix reset_index = "pwd_reset_user:"
prefix cutoff = "pwd_cutoff:"

key-prefix : (k : KeyKind) (x : String) → key k x ≡ (prefix k <> x)
unfolding refresh_key user_otp_key otp_attempts_key login_attempts_key forgot_attempts_key
    password_reset_key user_reset_index_key token_cutoff_key
key-prefix session x = refl
key-prefix _ x = refl

kind_of_codes :
    (k j : KeyKind) (xs ys : List ℕ) → codes (prefix k) ++ xs ≡ codes (prefix j) ++ ys → k ≡ j
kind_of_codes session session xs ys h = ground arith
kind_of_codes session _ xs ys h = ground arith
kind_of_codes otp session xs ys h = ground arith
kind_of_codes otp _ xs ys h = ground arith
kind_of_codes otp_count session xs ys h = ground arith
kind_of_codes otp_count _ xs ys h = ground arith
kind_of_codes login_count session xs ys h = ground arith
kind_of_codes login_count _ xs ys h = ground arith
kind_of_codes forgot_count session xs ys h = ground arith
kind_of_codes forgot_count _ xs ys h = ground arith
kind_of_codes reset session xs ys h = ground arith
kind_of_codes reset _ xs ys h = ground arith
kind_of_codes reset_index session xs ys h = ground arith
kind_of_codes reset_index _ xs ys h = ground arith
kind_of_codes cutoff session xs ys h = ground arith
kind_of_codes cutoff _ xs ys h = ground arith

key_text : (k j : KeyKind) (x y : String) → key k x ≡ key j y → (prefix k <> x) ≡ (prefix j <> y)
key_text k j x y h = sym (key-prefix k x) ∙ h ∙ key-prefix j y

-- Two entries under one key are of one family, and of one user, email, token or jti.
pub key-injective : (k j : KeyKind) (x y : String) → key k x ≡ key j y → (k ≡ j) × (x ≡ y)
key-injective k j x y h =
    let same = kind_of_codes k j _ _ (codes_of_eq _ _ _ _ (key_text k j x y h)) in
    (same, append_cancel_left (prefix j) x y (rw same at (key_text k j x y h)))

-- Keys of two families differ.
pub key-ne : (k j : KeyKind) (x y : String) → k ≢ j → key k x ≢ key j y
key-ne k j x y n h = n (key-injective k j x y h).0
