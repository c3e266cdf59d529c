-- ===== src/Server/Connect/Identity.antt =====
-- Proofs on src/server/transports/server_core.rs: whose connection it is, where there is authentication.
use flare_core.Base.{
  ◌≡◌, ap, true, false, Option, some, arith, Text, Result, ok, err, Option-cases, inl, inr,
}
use flare_core.Device.Platform.{DeviceInfo}
use flare_core.Errors.{FlareError}
use flare_core.Negotiation.Connect.{Metadata, NegotiationResult}
use flare_core.Negotiation.Settle.{ConnectionIdentity}
use flare_core.Server.Authentication.{
  AuthResult, identity_of, is_blank, tenant_id, extract_token_from_frame,
  extract_system_command_metadata,
}
use flare_core.Server.Frames.{Frame}
use flare_core.Server.World.{World, ServerCore, Library, Environment}
use flare_core.Server.Connect.{authenticate_connection, judged}

-- The identity is what the result says of a user that it has let in.
pub record IsVouched (r : AuthResult) (i : ConnectionIdentity) : Type 0 where
  pub let_in : r.authenticated ≡ true
  pub named : is_blank r.user_id ≡ false
  pub same_user : i.user_id ≡ r.user_id
  pub same_tenant : i.tenant_id ≡ tenant_id r
  pub same_metadata : i.metadata ≡ r.user_metadata

identity_of-IsVouched :
    (r : AuthResult) (i : ConnectionIdentity) → identity_of r ≡ ok i → IsVouched r i
unfolding identity_of
identity_of-IsVouched r i h = record {
  let_in = ground arith;
  named = ground arith;
  same_user = ground arith;
  same_tenant = ground arith;
  same_metadata = ground arith;
}

module _ {S : Type 0} (l : Library) (env : Environment S) (core : ServerCore) where
  judged-ok :
      (r : World S × Result FlareError AuthResult) (v : World S) (i : ConnectionIdentity)
      → judged l env core r ≡ (v, ok i)
      → (given : AuthResult) × (r ≡ (v, ok given)) × IsVouched given i
  judged-ok (w, ok r) v i h =
      let same : w ≡ v = ap (λ x. x.0) h in
      (r, ap (λ x. (x, ok r)) same, identity_of-IsVouched r i (ap (λ x. x.1) h))
  judged-ok (w, err e) v i h = absurd (ground arith)

  -- Where authentication is on and there is an authenticator, a connection that passes had a
  -- token, and is for the user and the tenant that the authenticator names for that token, with a
  -- user that is not blank.
  pub authenticate_connection-IsVouched :
      (authenticate : Text
        → Text
        → Option DeviceInfo
        → Option Metadata
        → World S
        → World S × Result FlareError AuthResult)
      (frame : Frame) (id : Text) (n : NegotiationResult) (w v : World S) (i : ConnectionIdentity)
      → core.auth_enabled ≡ true
      → env.authenticator ≡ some authenticate
      → authenticate_connection l env core frame id n w ≡ (v, ok i)
      → (token : Text) × (r : AuthResult) × (extract_token_from_frame frame ≡ some token)
        × (authenticate token id n.device_info (extract_system_command_metadata frame) w
            ≡ (v, ok r))
        × IsVouched r i
  unfolding authenticate_connection
  authenticate_connection-IsVouched a frame id n w v i on q h =
      elim (Option-cases (extract_token_from_frame frame)) [
        | inl t ↦ absurd (ground arith)
        | inr (token, t) ↦
            (let asked = a token id n.device_info (extract_system_command_metadata frame) w in
              let (r, given, vouched) = judged-ok asked v i (rw (on, q, t) at h) in
              (token, r, t, given, vouched))
      ]
