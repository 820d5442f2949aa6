-- ===== src/Platform.antt =====
-- What the frontend calls and does not implement: Yjs, its awareness protocol, and the browser's
-- `btoa` and `atob`. The operations are parameters of the model; `Documented` states what the
-- code relies on, and `Sample` has an instance that meets it.

use collaborative_ide.Prelude.{
  ℕ, ◌+◌, ◌≤◌, ◌<◌, ◌≡◌, ◌≢◌, Bool, false, Option, some, List, [], ◌∷◌, ◌++◌, Text, All, length,
  take, drop, String,
}

-- A JavaScript number as an index or a length may be: a field can be missing, and a difference
-- can be negative or not a number.
pub data Index : Type 0 where
  undefined nan : Index
  at : ℕ → Index
  minus : ℕ → Index

-- `ytext.delete(index, length)` and `ytext.insert(index, content)`.
pub data Op : Type 0 where
  del : Index → Index → Op
  ins : Index → Text → Op

-- What an operation within the bounds does to the text.
abbrev pub apply_op : Op → Text → Text
apply_op (del (at i) (at n)) t = take i t ++ drop (i + n) t
apply_op (ins (at i) s) t = take i t ++ (s ++ drop i t)
apply_op _ t = t

abbrev pub apply_ops : List Op → Text → Text
apply_ops [] t = t
apply_ops (o ∷ os) t = apply_ops os (apply_op o t)

abbrev pub Fits : Op → Text → Type 0
Fits (del (at i) (at n)) t = i + n ≤ length t
Fits (ins (at i) s) t = i ≤ length t
Fits _ t = ⊥

abbrev pub AllFit : List Op → Text → Type 0
AllFit [] t = Unit
AllFit (o ∷ os) t = Fits o t × AllFit os (apply_op o t)

-- A transaction on a document: what it leaves, whether the `update` event fires, and whether an
-- operation throws.
pub record Outcome (D : Type 0) : Type 0 where
  pub doc : D
  pub fired : Bool
  pub threw : Bool

pub record Platform : Type 1 where
  -- Y.Doc, Y.RelativePosition, Awareness
  pub Doc : Type 0
  pub Relative : Type 0
  pub Awareness : Type 0
  -- ydoc.getText('content').toString()
  pub text : Doc → Text
  -- ydoc.transact of operations on the text; one operation alone is a transaction too
  pub transact : List Op → Doc → Outcome Doc
  -- createRelativePositionFromTypeIndex, createAbsolutePositionFromRelativePosition
  pub relative : Doc → ℕ → Relative
  pub absolute : Relative → Doc → Option ℕ
  -- encodeRelativePosition, decodeRelativePosition (which may throw)
  pub encode : Relative → List ℕ
  pub decode : List ℕ → Option Relative
  -- encodeStateVector, encodeStateAsUpdate without and with a state vector (which may throw)
  pub state_vector : Doc → List ℕ
  pub full_state : Doc → List ℕ
  pub state_since : Doc → List ℕ → Option (List ℕ)
  -- applyUpdate (which may throw)
  pub apply_update : Doc → List ℕ → Option Doc
  -- setLocalStateField of `user`, encodeAwarenessUpdate, applyAwarenessUpdate (which may throw);
  -- a change names the clients whose state it changed, for the `change` event

  pub set_user : String → String → Awareness → Awareness × List ℕ
  pub encode_awareness : Awareness → List ℕ → List ℕ
  pub apply_awareness : Awareness → List ℕ → Option (Awareness × List ℕ)
  pub client_id : Doc → ℕ
  pub btoa : Text → Option Text
  pub atob : Text → Option Text

abbrev pub IsByte : ℕ → Type 0
IsByte b = b < 256

-- The documented behaviour on which theorems rest.
pub record Documented (p : Platform) : Type 0 where
  -- Operations within the bounds do not throw, and edit the text as an array is spliced.
  pub transact_fits :
      (ops : List Op) (d : p.Doc)
      → AllFit ops (p.text d)
      → ((p.transact ops d).threw ≡ false)
        × (p.text (p.transact ops d).doc ≡ apply_ops ops (p.text d))
  -- Where no `update` event fires, nothing changed.
  pub unfired :
      (ops : List Op) (d : p.Doc) → (p.transact ops d).fired ≡ false → (p.transact ops d).doc ≡ d
  -- A relative position made in a document resolves there to the index that it was made from.
  pub absolute-relative :
      (d : p.Doc) (i : ℕ) → i ≤ length (p.text d) → p.absolute (p.relative d i) d ≡ some i
  -- An absolute position lies in the text.
  pub absolute-le :
      (r : p.Relative) (d : p.Doc) (i : ℕ) → p.absolute r d ≡ some i → i ≤ length (p.text d)
  pub decode-encode : (r : p.Relative) → p.decode (p.encode r) ≡ some r
  pub encode-IsByte : (r : p.Relative) → All IsByte (p.encode r)
  pub encode-ne-nil : (r : p.Relative) → p.encode r ≢ []
  -- `btoa` takes every string of bytes, gives no empty string but for the empty one, and `atob`
  -- takes the result back.
  pub btoa_lem :
      (s : Text)
      → All IsByte s
      → (b : Text) × (p.btoa s ≡ some b) × (p.atob b ≡ some s) × (b ≡ [] → s ≡ [])
