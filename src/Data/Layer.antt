-- ===== src/Data/Layer.antt =====
-- What RenderStudioData reaches through an SdfLayer and its state delegate. OpenUSD documents that a
-- layer answers GetSpecType and GetField from its SdfAbstractData, and that the state delegate passes
-- CreateSpec and SetField on to it; `Forwards` states this for the layer of the data at hand.
use render_studio_kit.Shared.{◌≡◌, refl}
use render_studio_kit.Usd.{Usd}
use render_studio_kit.Data.State.{Data, get, get_spec_type, create_spec}
use render_studio_kit.Data.Edit.{set}

module _ ⦃usd : Usd⦄ where
  open usd use {SdfPath, Token, Value, SpecType}

  pub record Layer : Type 0 where
    pub layer_spec_type : Data → SdfPath → SpecType
    pub layer_field : Data → SdfPath → Token → Value
    pub layer_create_spec : Data → SdfPath → SpecType → Data
    pub layer_set_field : Data → SdfPath → Token → Value → Data

  pub record Forwards (l : Layer) : Type 0 where
    pub reads_spec_type : (d : Data) (p : SdfPath) → l.layer_spec_type d p ≡ get_spec_type d p
    pub reads_field : (d : Data) (p : SdfPath) (f : Token) → l.layer_field d p f ≡ get d p f
    pub creates_spec :
        (d : Data) (p : SdfPath) (t : SpecType) → l.layer_create_spec d p t ≡ create_spec d p t
    pub sets_field :
        (d : Data) (p : SdfPath) (f : Token) (v : Value) → l.layer_set_field d p f v ≡ set d p f v

  -- A layer that does nothing but forward
  abbrev pub forwarding : Layer
  forwarding = record {
    layer_spec_type = get_spec_type;
    layer_field = get;
    layer_create_spec = create_spec;
    layer_set_field = set;
  }

  pub forwarding-Forwards : Forwards forwarding
  forwarding-Forwards = record {
    reads_spec_type = λ d p. refl;
    reads_field = λ d p f. refl;
    creates_spec = λ d p t. refl;
    sets_field = λ d p f v. refl;
  }
