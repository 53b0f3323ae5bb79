-- ===== src/Codec.antt =====
-- codec/codec.go. The interface registry is a pointer: the codec holds it, and what is registered
-- later is seen through the codec.
use covenant.Prelude.{◌≡◌, sym, subst}

-- The cosmos SDK over the state `S` that its pointers lead to: `NewInterfaceRegistry`,
-- `NewProtoCodec` and `RegisterInterfaces` of the crypto codec.
pub record CodecPackage (S : Type 0) : Type 1 where
  pub InterfaceRegistry : Type 0
  pub ProtoCodec : Type 0
  pub new_interface_registry : S → InterfaceRegistry × S
  pub new_proto_codec : InterfaceRegistry → ProtoCodec
  pub register_interfaces : InterfaceRegistry → S → S

module _ {S : Type 0} (lib : CodecPackage S) where
  unfoldable pub make_codec : S → lib.ProtoCodec × S
  make_codec s =
      let (ir, u) = lib.new_interface_registry s in
      let cdc = lib.new_proto_codec ir in (cdc, lib.register_interfaces ir u)

  -- A codec reads the registry that it was made over, which knows what was registered in it.
  pub record IsCodecPackage : Type 1 where
    pub registry : lib.ProtoCodec → lib.InterfaceRegistry
    pub knows_crypto : lib.InterfaceRegistry → S → Type 0
    pub reads : (ir : lib.InterfaceRegistry) → registry (lib.new_proto_codec ir) ≡ ir
    pub registers :
        (ir : lib.InterfaceRegistry) (s : S) → knows_crypto ir (lib.register_interfaces ir s)

  -- The codec that `MakeCodec` returns knows the types of the crypto package.
  make_codec_knows_crypto :
      (law : IsCodecPackage) (s : S)
      → law.knows_crypto (law.registry (make_codec s).0) (make_codec s).1
  unfolding make_codec
  make_codec_knows_crypto law s =
      let (ir, u) = lib.new_interface_registry s in
      subst (λ r. law.knows_crypto r (lib.register_interfaces ir u)) (sym (law.reads ir))
        (law.registers ir u)
