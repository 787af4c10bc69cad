-- ===== src/Fuzz/Family/Targets.antt =====
-- The targets of src/targets as families: what the module of each one proves is the promise.
use diffsecp.Prelude.{arith}
use diffsecp.Fuzz.Family.{Family}
use diffsecp.Field.Api.{FieldApi}
use diffsecp.Field.Contract.{FieldContract}
use diffsecp.Field.Target.{target_field}
use diffsecp.Field.Agree.{target_field-SameTranscript}
use diffsecp.Scalar.Api.{ScalarApi}
use diffsecp.Scalar.Contract.{ScalarContract}
use diffsecp.Scalar.Target.{target_scalar}
use diffsecp.Scalar.Agree.{target_scalar-SameTranscript}
use diffsecp.Recovery.Api.{RecoveryApi}
use diffsecp.Recovery.Api.{RecoveryContract}
use diffsecp.Recovery.Target.{target_recovery}
use diffsecp.Recovery.Agree.{target_recovery-SameTranscript}
use diffsecp.Keys.Api.{KeysApi}
use diffsecp.Keys.Contract.{KeysContract}
use diffsecp.Keys.Machine.{target_keys}
use diffsecp.Keys.Agree.{target_keys-SameTranscript}
use diffsecp.Schnorrsig.Api.{SchnorrsigApi}
use diffsecp.Schnorrsig.Contract.{SchnorrsigBuilds}
use diffsecp.Schnorrsig.Machine.{target_schnorrsig}
use diffsecp.Schnorrsig.Agree.{target_schnorrsig-SameTranscript}
use diffsecp.Ellswift.Api.{EllswiftApi}
use diffsecp.Ellswift.Contract.{EllswiftContract}
use diffsecp.Ellswift.Target.{target_ellswift}
use diffsecp.Ellswift.Agree.{target_ellswift-SameTranscript}
use diffsecp.Ecdsa.Api.{EcdsaApi}
use diffsecp.Ecdsa.Contract.{EcdsaContract}
use diffsecp.Ecdsa.Machine.{target_ecdsa}
use diffsecp.Ecdsa.Agree.{target_ecdsa-SameTranscript}
use diffsecp.Group.Api.{GroupApi}
use diffsecp.Group.Contract.{GroupContract}
use diffsecp.Group.Machine.{target_group}
use diffsecp.Group.Agree.{target_group-SameTranscript}
use diffsecp.Musig.Api.{MusigApi}
use diffsecp.Musig.Contract.{MusigContract}
use diffsecp.Musig.Machine.{target_musig}
use diffsecp.Musig.Agree.{target_musig-SameTranscript}

abbrev pub field_family : Family
field_family = record {
  Api = FieldApi;
  Contract = FieldContract;
  run = λ api input len out size. target_field api input len out size;
  bound = 62464;
  fits = omega arith;
  same = λ f g c input len out out' size short room call call'.
      target_field-SameTranscript f g c input len out out' size room call call';
}

abbrev pub scalar_family : Family
scalar_family = record {
  Api = ScalarApi;
  Contract = ScalarContract;
  run = λ api input len out size. target_scalar api input len out size;
  bound = 66560;
  fits = omega arith;
  same = λ f g c input len out out' size short room call call'.
      target_scalar-SameTranscript f g c input len out out' size room call call';
}

abbrev pub recovery_family : Family
recovery_family = record {
  Api = RecoveryApi;
  Contract = RecoveryContract;
  run = λ api input len out size. target_recovery api input len out size;
  bound = 322;
  fits = omega arith;
  same = λ f g c input len out out' size short room call call'.
      target_recovery-SameTranscript f g c input len out out' size room call call';
}

abbrev pub keys_family : Family
keys_family = record {
  Api = KeysApi;
  Contract = KeysContract;
  run = λ api input len out size. target_keys api input len out size;
  bound = 13696;
  fits = omega arith;
  same = λ f g c input len out out' size short room call call'.
      target_keys-SameTranscript f g c input len out out' size room call call';
}

-- With what libsecp documents and `FailsAlike`, which it does not.
abbrev pub schnorrsig_family : Family
schnorrsig_family = record {
  Api = SchnorrsigApi;
  Contract = SchnorrsigBuilds;
  run = λ api input len out size. target_schnorrsig api input len out size;
  bound = 316;
  fits = omega arith;
  same = λ f g c input len out out' size short room call call'.
      target_schnorrsig-SameTranscript f g c.contract c.fails_alike input len out out' size room
        call call';
}

abbrev pub ellswift_family : Family
ellswift_family = record {
  Api = EllswiftApi;
  Contract = EllswiftContract;
  run = λ api input len out size. target_ellswift api input len out size;
  bound = 462;
  fits = omega arith;
  same = λ f g c input len out out' size short room call call'.
      target_ellswift-SameTranscript f g c input len out out' size room call call';
}

abbrev pub ecdsa_family : Family
ecdsa_family = record {
  Api = EcdsaApi;
  Contract = EcdsaContract;
  run = λ api input len out size. target_ecdsa api input len out size;
  bound = 1130;
  fits = omega arith;
  same = λ f g c input len out out' size short room call call'.
      target_ecdsa-SameTranscript f g c input len out out' size short room call call';
}

abbrev pub group_family : Family
group_family = record {
  Api = GroupApi;
  Contract = GroupContract;
  run = λ api input len out size. target_group api input len out size;
  bound = 18752;
  fits = omega arith;
  same = λ f g c input len out out' size short room call call'.
      target_group-SameTranscript f g c input len out out' size room call call';
}

abbrev pub musig_family : Family
musig_family = record {
  Api = MusigApi;
  Contract = MusigContract;
  run = λ api input len out size. target_musig api input len out size;
  bound = 671;
  fits = omega arith;
  same = λ f g c input len out out' size short room call call'.
      target_musig-SameTranscript f g c input len out out' size room call call';
}
