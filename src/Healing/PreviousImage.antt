-- ===== src/Healing/PreviousImage.antt =====
-- apps/runner/src/deployers/previous-image.ts: the label with the image that a rollback goes back to.
use dev_ops_deployment_tool.Common.{
  ◌≡◌, ◌∙◌, refl, String, false, List, [], ◌∷◌, Option, none, some, str_eq, eq_iff, if◌then◌else◌,
  All, Bool-cases, inl, inr,
}

abbrev pub Labels : Type 0
Labels = String → Option String

-- What Docker says of a container.
pub record ContainerInspection : Type 0 where
  pub image : String
  pub labels : Labels

-- `DEPLOYX_PREVIOUS_IMAGE_LABEL`
abbrev pub previous_image_label : String
previous_image_label = "deployx.previousImage"

-- `text || null`
abbrev pub or_null : Option String → Option String
or_null none = none
or_null (some x) = if str_eq x "" then none else some x

-- `resolvePreviousImage`
unfoldable pub resolve_previous_image : Option ContainerInspection → String → Option String
resolve_previous_image none new_image = none
resolve_previous_image (some outgoing) new_image =
    if str_eq outgoing.image ""
    then none
    else (if str_eq outgoing.image new_image
        then or_null (outgoing.labels previous_image_label)
        else some outgoing.image)

-- `withPreviousImageLabel`
unfoldable pub with_previous_image_label : Labels → Option String → Labels
with_previous_image_label labels none key = labels key
with_previous_image_label labels (some x) key =
    if str_eq x ""
    then labels key
    else (if str_eq key previous_image_label then some x else labels key)

-- `readPreviousImage`
unfoldable pub read_previous_image : Option ContainerInspection → Option String
read_previous_image none = none
read_previous_image (some inspection) = or_null (inspection.labels previous_image_label)

module _ (labels : Labels) where
  -- The container that runs after the images have been deployed, the newest first: each is labelled
  -- with the image that it replaces.
  unfoldable pub deployed : List String → Option ContainerInspection
  unfolding resolve_previous_image with_previous_image_label
  deployed [] = none
  deployed (image ∷ images) = some (record {
    image = image;
    labels = with_previous_image_label labels (resolve_previous_image (deployed images) image);
  })

-- The newest image in the history that is not the current one.
abbrev pub newest_other : String → List String → Option String
newest_other image [] = none
newest_other image (i ∷ images) = if str_eq i image then newest_other image images else some i

or_null_idem : (o : Option String) → or_null (or_null o) ≡ or_null o
or_null_idem none = refl
or_null_idem (some x) = elim (Bool-cases (str_eq x "")) [
  | inl e ↦ rw e refl
  | inr e ↦ rw (e, or_null, e) refl
]

or_null-label :
    (labels : Labels) (p : Option String)
    → labels previous_image_label ≡ none
    → or_null (with_previous_image_label labels p previous_image_label) ≡ or_null p
unfolding with_previous_image_label
or_null-label labels none plain = rw plain refl
or_null-label labels (some x) plain = elim (Bool-cases (str_eq x "")) [
  | inl e ↦ rw (e, plain) refl
  | inr e ↦ rw (e, or_null, e) refl
]

or_null-resolve :
    (labels : Labels) (image : String) (images : List String)
    → labels previous_image_label ≡ none
    → All (λ i. str_eq i "" ≡ false) images
    → or_null (resolve_previous_image (deployed labels images) image) ≡ newest_other image images
unfolding deployed resolve_previous_image
or_null-resolve labels image [] plain named = refl
or_null-resolve labels image (i ∷ images) plain named = elim (Bool-cases (str_eq i image)) [
  | inl e ↦
      let same : i ≡ image = (eq_iff i image).0 e in
      rw (named.0, e)
        (or_null_idem (
            with_previous_image_label labels (resolve_previous_image (deployed labels images) i)
              previous_image_label)
          ∙ or_null-label labels (resolve_previous_image (deployed labels images) i) plain
          ∙ or_null-resolve labels i images plain named.1
          ∙ (rw same refl))
  | inr e ↦ rw (named.0, e, or_null, named.0) refl
]

-- If the labels that a deployer sets have no previous image and no deployed image has an empty name,
-- then the image that is read from the running container is the newest one deployed before it that
-- differs from its own: a redeployment of the same image keeps it, and a container never goes back to
-- its own image.
pub read_previous_image_lem :
    (labels : Labels) (image : String) (images : List String)
    → labels previous_image_label ≡ none
    → All (λ i. str_eq i "" ≡ false) images
    → read_previous_image (deployed labels (image ∷ images)) ≡ newest_other image images
unfolding read_previous_image deployed
read_previous_image_lem labels image images plain named =
    or_null-label labels (resolve_previous_image (deployed labels images) image) plain
    ∙ or_null-resolve labels image images plain named
