-- ===== src/Owner/Laws.antt =====
-- Which owner IDs are accepted, and who a caller is.
use text.Mathlib.TextPositions.{starts_with-append}
use lustre_test_vms.Base.{
  ◌≤◌, String, ◌<>◌, ◌≡◌, ◌≢◌, true, false, Option, none, some, arith, length, string_eq,
}
use lustre_test_vms.Result.{Err, ok, err, value_error}
use lustre_test_vms.Owner.{
  Host, codes, max_owner_id_length, has_control, validate_owner_id, current_owner, is_session_owner,
  user_name,
}

-- An owner ID that passes is returned as it is, is not empty, has at most 255 characters and no
-- NUL, newline or carriage return.
pub validate_owner_id_sound :
    (s t : String)
    → validate_owner_id s ≡ ok t
    → (t ≡ s)
      × (s ≢ "")
      × (length (codes s) ≤ max_owner_id_length)
      × (has_control (codes s) ≡ false)
unfolding validate_owner_id
validate_owner_id_sound s t h = ground arith

-- An explicit owner is the owner, if it is accepted.
pub current_owner-some :
    (h : Host) (o p : String) → o ≢ "" → current_owner h (some o) ≡ ok p → p ≡ o
unfolding current_owner
current_owner-some h o p filled e = ground arith

is_session_owner-user : (name : String) → is_session_owner ("user:" <> name) ≡ false
unfolding is_session_owner
is_session_owner-user name = rw (starts_with-append "user:" name)

-- The caller that stands for an agent session has a proper ID, so it is asked for again alike.
pub session_owner_filled :
    (h : Host) (o : String) → current_owner h none ≡ ok o → is_session_owner o ≡ true → o ≢ ""
unfolding current_owner
session_owner_filled h o e session = ground (arith, is_session_owner-user (user_name h))

-- The only error is a bad owner ID.
pub current_owner-err :
    (h : Host) (x : Option String) (e : Err) → current_owner h x ≡ err e → e ≡ value_error
unfolding current_owner
current_owner-err h x e f = ground arith
