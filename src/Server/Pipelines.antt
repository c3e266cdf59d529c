-- ===== src/Server/Pipelines.antt =====
-- The pipelines that connections share: `pipeline_for_negotiation_profile` of
-- src/server/transports/server_core.rs.
use flare_core.Base.{
  ℕ, ◌+◌, ◌≡◌, ◌↔◌, Bool, true, false, not, ◌&&◌, Option, none, some, arith, Equality, ◌==◌,
  text_eq, text_beq_iff, if◌then◌else◌,
}
use flare_core.Base.Dict.{get, insert}
use flare_core.Connection.Info.{EncryptionAlgorithm, unencrypted, aes256_gcm}
use flare_core.Negotiation.Algorithms.{compression_eq, format_beq, format_beq_iff}
use flare_core.Server.World.{PipelineCacheKey, World, Environment, ServerCore}

abbrev pub encryption_beq : EncryptionAlgorithm → EncryptionAlgorithm → Bool
encryption_beq unencrypted unencrypted = true
encryption_beq aes256_gcm aes256_gcm = true
encryption_beq (EncryptionAlgorithm.custom s) (EncryptionAlgorithm.custom t) = s == t
encryption_beq _ _ = false

encryption_beq_iff : (a b : EncryptionAlgorithm) → (encryption_beq a b ≡ true) ↔ (a ≡ b)
encryption_beq_iff unencrypted unencrypted = ground arith
encryption_beq_iff aes256_gcm aes256_gcm = ground arith
encryption_beq_iff (EncryptionAlgorithm.custom s) (EncryptionAlgorithm.custom t) =
    ground (arith, text_beq_iff s t)
encryption_beq_iff unencrypted aes256_gcm = ground arith
encryption_beq_iff unencrypted (EncryptionAlgorithm.custom t) = ground arith
encryption_beq_iff aes256_gcm unencrypted = ground arith
encryption_beq_iff aes256_gcm (EncryptionAlgorithm.custom t) = ground arith
encryption_beq_iff (EncryptionAlgorithm.custom s) unencrypted = ground arith
encryption_beq_iff (EncryptionAlgorithm.custom s) aes256_gcm = ground arith

abbrev pub key_beq : PipelineCacheKey → PipelineCacheKey → Bool
key_beq x y =
    format_beq x.format y.format
    && x.compression == y.compression
    && encryption_beq x.encryption y.encryption

pub key_beq_iff : (x y : PipelineCacheKey) → (key_beq x y ≡ true) ↔ (x ≡ y)
key_beq_iff x y = ground (
  arith,
  format_beq_iff x.format y.format,
  compression_eq.eq_iff x.compression y.compression,
  encryption_beq_iff x.encryption y.encryption,
)

instance abbrev pub key_eq : Equality PipelineCacheKey
key_eq = record { eq = key_beq; eq_iff = key_beq_iff }

module _ {S : Type 0} (env : Environment S) where
  -- `entry(key).or_insert_with(..)`, with the pipeline that has just been made.
  abbrev pub cached : PipelineCacheKey → ℕ → World S → Option ℕ → World S × Option ℕ
  cached key made w (some pipeline) = (w, some pipeline)
  cached key made w none =
      (record w { pipeline_cache = insert key made w.pipeline_cache }, some made)

  abbrev pub make : PipelineCacheKey → World S → World S × Option ℕ
  make key w =
      let made = w.pipelines_made in
      let built = env.build_pipeline (record w { pipelines_made = made + 1 }) in
      cached key made built (get key built.pipeline_cache)

  abbrev pub found_or_made : PipelineCacheKey → World S → Option ℕ → World S × Option ℕ
  found_or_made key w (some pipeline) = (w, some pipeline)
  found_or_made key w none = make key w

  unfoldable pub pipeline_for_negotiation_profile :
      ServerCore → PipelineCacheKey → World S → World S × Option ℕ
  unfolding get insert
  pipeline_for_negotiation_profile core key w =
      if not core.has_pipeline then (w, none) else found_or_made key w (get key w.pipeline_cache)
