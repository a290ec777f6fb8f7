-- ===== src/Sage/Store/Places.antt =====
-- What a client of sage-halpin/server/store.ts finds at a place after it wrote there or elsewhere.
use Prim.Native.String.{String}
use aijoes_app.Prelude.{
  ◌≡◌, ◌≢◌, refl, ◌∙◌, false, none, some, arith, same_text, same_text_iff, same_text_refl,
}
use aijoes_app.Sage.Store.{Store, IsStore}

pub same_text_ne : (a b : String) → a ≢ b → same_text a b ≡ false
same_text_ne a b ne = ground (arith, same_text_iff a b)

module _ {V : Type 0} (S : Store V) (store : IsStore S) where
  open S use {State, get, put, remove}
  open store use {get-put, get-remove}

  pub get-put_same : (p r : String) (v : V) (s : State) → get p r (put p r v s) ≡ some v
  get-put_same p r v s = get-put p r v s p r ∙ rw (same_text_refl p, same_text_refl r) refl

  pub get-put_row :
      (p r r' : String) (v : V) (s : State) → r ≢ r' → get p r' (put p r v s) ≡ get p r' s
  get-put_row p r r' v s ne =
      get-put p r v s p r' ∙ rw (same_text_refl p, same_text_ne r r' ne) refl

  pub get-put_partition :
      (p p' r r' : String) (v : V) (s : State) → p ≢ p' → get p' r' (put p r v s) ≡ get p' r' s
  get-put_partition p p' r r' v s ne = get-put p r v s p' r' ∙ rw (same_text_ne p p' ne) refl

  pub get-remove_same : (p r : String) (s : State) → get p r (remove p r s) ≡ none
  get-remove_same p r s = get-remove p r s p r ∙ rw (same_text_refl p, same_text_refl r) refl

  pub get-remove_row : (p r r' : String) (s : State) → r ≢ r' → get p r' (remove p r s) ≡ get p r' s
  get-remove_row p r r' s ne =
      get-remove p r s p r' ∙ rw (same_text_refl p, same_text_ne r r' ne) refl

  pub get-remove_partition :
      (p p' r r' : String) (s : State) → p ≢ p' → get p' r' (remove p r s) ≡ get p' r' s
  get-remove_partition p p' r r' s ne = get-remove p r s p' r' ∙ rw (same_text_ne p p' ne) refl

  -- What is gone stays gone.
  pub get-remove_none :
      (p r p' r' : String) (s : State) → get p' r' s ≡ none → get p' r' (remove p r s) ≡ none
  get-remove_none p r p' r' s gone = get-remove p r s p' r' ∙ rw gone (ground arith)
