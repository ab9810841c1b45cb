-- ===== src/Seal/Frame/Walk.antt =====
-- The walk over a packed blob: it ends, and damage costs only what comes after it.
use sennit.Prelude.{
  ℕ, zero, suc, ◌≤◌, ◌<◌, ◌≡◌, ap, ◌∙◌, List, [], ◌∷◌, ◌++◌, append-nil, append_assoc, arith,
  Result, ok, err, Option, none, some, inl, inr, ◌>>=◌, length, length-drop, Result-cases,
  Option-cases, All,
}
use sennit.Record.{IsRecordId}
use sennit.Seal.Uvarint.{uvarint, uvarint-shorter}
use sennit.Seal.Frame.{Fault, Frame, cut_body, unframe, frames_loop, frames, frame_record}
use sennit.Seal.Frame.RoundTrip.{Fits, unframe-frame_record}

cut_body-shorter :
    (n : ℕ) (b : List ℕ) (frame : Frame) (rest : List ℕ)
    → cut_body n b ≡ ok (frame, rest)
    → length rest ≤ length b
unfolding cut_body
cut_body-shorter n b frame rest h = ground (arith, length-drop n b)

-- A frame that was read took a byte at least.
pub unframe-shorter :
    (b : List ℕ) (frame : Frame) (rest : List ℕ)
    → unframe b ≡ ok (frame, rest)
    → length rest < length b
unfolding unframe
unframe-shorter b frame rest h = elim (Option-cases (uvarint b)) [
  | inl e ↦ absurd (cc (rw (e, unframe) at h))
  | inr ((n, tail), e) ↦
      let h' : cut_body n tail ≡ ok (frame, rest) = ground (arith, h, e) in
      omega (arith, uvarint-shorter b n tail e, cut_body-shorter n tail frame rest h')
]

-- One round of the loop.
loop_step :
    (fuel : ℕ) (out : List Frame) (b : List ℕ) (frame : Frame) (rest : List ℕ)
    → unframe b ≡ ok (frame, rest)
    → frames_loop (suc fuel) out b ≡ frames_loop fuel (out ++ frame ∷ []) rest
unfolding frames_loop
loop_step fuel out [] frame rest h = absurd (omega (arith, unframe-shorter [] frame rest h))
loop_step fuel out (b ∷ bs) frame rest h = rw (h, frames_loop)

-- With as much fuel as bytes the loop ends, and it ends alike on every such fuel: `walk b` is what it
-- finds, behind the frames that were found before.
abbrev pub Ends : List ℕ → List Frame × Option Fault → Type 0
Ends b (found, fault) =
    (fuel : ℕ) (out : List Frame)
    → length b ≤ fuel
    → frames_loop fuel out b ≡ some (out ++ found, fault)

Ends-cons :
    (b : List ℕ) (frame : Frame) (rest : List ℕ) (found : List Frame) (fault : Option Fault)
    → unframe b ≡ ok (frame, rest)
    → Ends rest (found, fault)
    → Ends b (frame ∷ found, fault)
Ends-cons b frame rest found fault h ends zero out le =
    absurd (omega (arith, unframe-shorter b frame rest h))
Ends-cons b frame rest found fault h ends (suc fuel) out le =
    loop_step fuel out b frame rest h
    ∙ ends fuel (out ++ frame ∷ []) (omega (arith, unframe-shorter b frame rest h))
    ∙ ap (λ (l : List Frame). some (l, fault)) (append_assoc out (frame ∷ []) found)

Ends-fault :
    (x : ℕ) (bs : List ℕ) (e : Fault) → unframe (x ∷ bs) ≡ err e → Ends (x ∷ bs) ([], some e)
unfolding frames_loop
Ends-fault x bs e h zero out le = absurd (omega arith)
Ends-fault x bs e h (suc fuel) out le = rw (h, frames_loop) (rw append-nil)

Ends-empty : Ends [] ([], none)
unfolding frames_loop
Ends-empty fuel out le = rw append-nil

walk_within :
    (k : ℕ) (b : List ℕ)
    → length b < k
    → (found : List Frame) × (fault : Option Fault) × Ends b (found, fault)
walk_within zero b h = absurd (omega arith)
walk_within (suc k) [] h = ([], none, Ends-empty)
walk_within (suc k) (x ∷ bs) h = elim (Result-cases (unframe (x ∷ bs))) [
  | inl ((frame, rest), e) ↦
      let (found, fault, ends) =
        walk_within k rest (omega (arith, unframe-shorter (x ∷ bs) frame rest e)) in
      (frame ∷ found, fault, Ends-cons (x ∷ bs) frame rest found fault e ends)
  | inr (e, q) ↦ ([], some e, Ends-fault x bs e q)
]

Ends-frames :
    (b : List ℕ) (found : List Frame) (fault : Option Fault)
    → Ends b (found, fault)
    → frames b ≡ some (found, fault)
unfolding frames
Ends-frames b found fault ends = ends (length b) [] (omega arith)

-- The walk over any bytes, framed or not, ends: one round for each byte is enough fuel.
pub frames_total :
    (blob : List ℕ)
    → (found : List Frame) × (fault : Option Fault) × (frames blob ≡ some (found, fault))
frames_total blob =
    let (found, fault, ends) = walk_within (suc (length blob)) blob (omega arith) in
    (found, fault, Ends-frames blob found fault ends)

-- The fuel of the answer can be read back: two answers of `frames` are one.
Ends-of_frames :
    (b : List ℕ) (found : List Frame) (fault : Option Fault)
    → frames b ≡ some (found, fault)
    → Ends b (found, fault)
Ends-of_frames b found fault h fuel out le =
    let (found', fault', ends) = walk_within (suc (length b)) b (omega arith) in
    let same : ◌≡◌ {A = Option (List Frame × Option Fault)} (some (found', fault'))
        (some (found, fault)) =
      cc (Ends-frames b found' fault' ends) in
    ends fuel out le ∙ ground (arith, same)

-- The frames written one after the other, as the blobs that the packer makes hold them.
abbrev pub pack : List Frame → Result Fault (List ℕ)
pack [] = ok []
pack (f ∷ fs) = do bytes ← frame_record f.kind f.id f.sealed; more ← pack fs; ok (bytes ++ more)

abbrev pub IsFrame : Frame → Type 0
IsFrame f = IsRecordId f.id × Fits f.sealed

Ends-pack :
    (fs : List Frame) (bytes tail : List ℕ) (found : List Frame) (fault : Option Fault)
    → All IsFrame fs
    → pack fs ≡ ok bytes
    → Ends tail (found, fault)
    → Ends (bytes ++ tail) (fs ++ found, fault)
Ends-pack [] bytes tail found fault valid h ends = let e : bytes ≡ [] = ground arith in rw e ends
Ends-pack (f ∷ fs) bytes tail found fault valid h ends =
    elim (Result-cases (frame_record f.kind f.id f.sealed)) [
      | inr (e, q) ↦ absurd (ground arith)
      | inl (first, q) ↦ elim (Result-cases (pack fs)) [
        | inr (e, r) ↦ absurd (ground arith)
        | inl (more, r) ↦
            let split : bytes ≡ first ++ more = ground arith in
            rw (split, append_assoc first more tail)
              (Ends-cons (first ++ (more ++ tail)) f (more ++ tail) (fs ++ found) fault
                (unframe-frame_record f.kind f.id f.sealed first (more ++ tail) valid.0.0 valid.0.1
                  q)
                (Ends-pack fs more tail found fault valid.1 r ends))
      ]
    ]

-- A walk over frames packed one behind the other and any further bytes, damaged or not, returns all of
-- these frames, in order, then what a walk over the further bytes alone returns, and stops for the
-- same reason as that walk: damage costs the records behind it, and none before.
pub frames-pack :
    (fs : List Frame) (bytes tail : List ℕ) (found : List Frame) (fault : Option Fault)
    → All IsFrame fs
    → pack fs ≡ ok bytes
    → frames tail ≡ some (found, fault)
    → frames (bytes ++ tail) ≡ some (fs ++ found, fault)
frames-pack fs bytes tail found fault valid h t =
    Ends-frames (bytes ++ tail) (fs ++ found) fault
      (Ends-pack fs bytes tail found fault valid h (Ends-of_frames tail found fault t))
