-- ===== src/Tests/Recovery/Builds.antt =====
-- A stand-in for the recoverable signatures, which keeps the contract: a signature is its 64 bytes
-- and its id, a key the message that it was recovered from. With `strict`, an illegal call aborts.
use diffsecp.Prelude.{
  ℕ, ◌≤◌, pos, List, ◌≡◌, refl, ap, arith, some, Bool, true, false, not, ◌||◌, leb, ◌==◌,
  if◌then◌else◌,
}
use diffsecp.Tests.Bytes.{of_b32, to_bytes, length-to_bytes, bit, check, check_passes}
use diffsecp.Recovery.Api.{RecoveryApi, RecoveryContract}

pub build : Bool → RecoveryApi
unfolding check
build strict = record {
  RecoverableSignature = List ℕ × ℕ;
  Signature = List ℕ;
  Pubkey = List ℕ;
  sign_recoverable = λ msg seckey ndata. some (pos 1, (to_bytes 64 (of_b32 0 msg), 1));
  recoverable_serialize_compact = λ s. some (to_bytes 64 (of_b32 0 s.0), s.1);
  recoverable_parse_compact = λ sig64 recid.
      check (not strict || leb recid 3) (bit (not (of_b32 0 sig64 == 0)), (sig64, recid));
  convert = λ s. some s.0;
  serialize_compact = λ s. some (to_bytes 64 (of_b32 0 s));
  recover = λ s msg. some (pos 1, msg);
  pubkey_serialize = λ k size compressed.
      check (not strict || leb (if compressed then 33 else 65) size)
        (to_bytes (if compressed then 33 else 65) (of_b32 0 k));
  verify = λ s msg k. some (bit (of_b32 0 msg == of_b32 0 k));
  normalize = λ s. some (pos 0, s);
}

pub builds_agree : RecoveryContract (build false) (build true)
unfolding build check
builds_agree = record {
  SameRecoverable = λ s s'. (s ≡ s') × (s.1 ≤ 3);
  SameSignature = λ s s'. s ≡ s';
  SamePubkey = λ k k'. k ≡ k';
  sign_recoverable =
      λ msg seckey ndata l m n. (_, _, refl, refl, (refl, λ ok. (refl, omega arith)));
  recoverable_serialize_compact =
      λ s s' h. rw (← h.0) (_, refl, refl, (length-to_bytes 64 (of_b32 0 s.0), omega (arith, h.1)));
  recoverable_parse_compact =
      λ sig64 recid l m. (_, _, refl, check_passes _ _ (ground arith), (refl, λ ok. (refl, m)));
  convert = λ s s' h. (_, _, refl, refl, ap (λ x. x.0) h.0);
  serialize_compact = λ s s' h. rw h (_, refl, refl, length-to_bytes 64 (of_b32 0 s'));
  recover = λ s s' msg l h. (_, _, refl, refl, (refl, λ ok. refl));
  pubkey_serialize = λ k k' size compressed l h.
      rw h (_, refl, check_passes _ _ (ground arith), length-to_bytes _ (of_b32 0 k'));
  verify = λ s s' msg k k' l h e. rw e (_, refl, refl, tt);
  normalize = λ s s' h. (_, _, refl, refl, (refl, h));
}
