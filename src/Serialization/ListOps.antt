-- ===== src/Serialization/ListOps.antt =====
-- Sources/Serialization/Serialization.h: what comes back of an SdfListOp<T>.
use render_studio_kit.Shared.{◌≡◌, refl, ◌∙◌, ap, List, [], ◌∷◌, some, is_nil, not, if◌then◌else◌}
use render_studio_kit.Usd.{Usd}
use render_studio_kit.Serialization.Json.{JsonLibrary, Reads, Form, Gives, IsFaithful}
use render_studio_kit.Serialization.Forms.{ListOp, list_op_of, list_op_form}
use render_studio_kit.Serialization.Faithful.{list_op_form-list_op_of}

module _ {A : Type 0} where
  list_op_of-eq :
      (explicit_items prepended appended deleted : List A)
      → list_op_of explicit_items prepended appended deleted ≡ record {
        is_explicit = not (is_nil explicit_items);
        explicit_items = explicit_items;
        added_items = [];
        prepended_items = if is_nil explicit_items then prepended else [];
        appended_items = if is_nil explicit_items then appended else [];
        deleted_items = if is_nil explicit_items then deleted else [];
        ordered_items = [];
      }
  unfolding list_op_of
  list_op_of-eq [] prepended appended deleted = refl
  list_op_of-eq (x ∷ xs) prepended appended deleted = refl

module _ ⦃usd : Usd⦄ ⦃json : JsonLibrary⦄ where
  -- What the reader makes of a list operation that was written, if its items are read back. It is
  -- explicit exactly if there were explicit items, and then has these and nothing else; otherwise it
  -- has the prepended, the appended and the deleted items that were written. The added and the ordered
  -- items are lost, and so is that it was explicit, where it had no explicit items.
  pub list_op_form-Gives :
      (lib : Reads json) {A : Type 0} (form : Form A) (v : ListOp A)
      → IsFaithful form
      → Gives (list_op_form form) v (record {
        is_explicit = not (is_nil v.explicit_items);
        explicit_items = v.explicit_items;
        added_items = [];
        prepended_items = if is_nil v.explicit_items then v.prepended_items else [];
        appended_items = if is_nil v.explicit_items then v.appended_items else [];
        deleted_items = if is_nil v.explicit_items then v.deleted_items else [];
        ordered_items = [];
      })
  list_op_form-Gives lib form v h j e =
      list_op_form-list_op_of lib form v h j e
      ∙ ap some (list_op_of-eq v.explicit_items v.prepended_items v.appended_items v.deleted_items)
