-- ===== src/Providers/Cloudru/Iam.antt =====
-- internal/providers/cloudru/iam.go: the access token and its cache. The foreign IAM client is an
-- argument, `now` is the clock in nanoseconds, and the lock is that a call runs alone.
use cloud_secrets.Prelude.{
  ℕ, not, ◌&&◌, [], ltb, if◌then◌else◌, wrap, Result, ok, err, panic, Text, ◌==◌,
}
use cloud_secrets.Prelude.Exec.{Exec}
use cloud_secrets.Prelude.Time.{add, seconds}

-- iamAuthV1.GetTokenResponse, with the lifetime in seconds, as the residue of a signed
-- integer of 64 bits
pub record TokenResponse : Type 0 where
  pub access_token : Text
  pub expires_in : ℕ

pub record IamInterceptor : Type 0 where
  pub access_token : Text
  pub access_token_expires_at : ℕ
  pub access_key : Text
  pub access_secret : Text

module _ {W : Type 0} (get_token : Text → Text → Exec W TokenResponse) (now : W → ℕ) where
  abbrev pub keep_token :
      IamInterceptor → Result TokenResponse → W → Result Text × (IamInterceptor × W)
  keep_token i (ok resp) w = (
    ok resp.access_token,
    (
      record i {
        access_token = resp.access_token;
        access_token_expires_at = add (now w) (seconds resp.expires_in);
      },
      w,
    ),
  )
  keep_token i (err e) w = (err (wrap "get access token" e), (i, w))
  keep_token i panic w = (panic, (i, w))

  unfoldable pub get_or_create_token : Exec (IamInterceptor × W) Text
  get_or_create_token (i, w) =
      if not (i.access_token == []) && ltb (now w) i.access_token_expires_at
      then (ok i.access_token, (i, w))
      else let (r, w') = get_token i.access_key i.access_secret w in keep_token i r w'

  abbrev holding : IamInterceptor → TokenResponse → W → IamInterceptor
  holding i resp w = record i {
    access_token = resp.access_token;
    access_token_expires_at = add (now w) (seconds resp.expires_in);
  }
