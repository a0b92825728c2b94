-- ===== src/Wire/Paths.antt =====
-- Paths: wireAppendPath, wireSizePath and wireChopPath.
use ironwood.Base.{
  ℕ, zero, suc, ◌-◌, ◌<◌, ◌≡◌, ◌≢◌, sym, ap, ◌∙◌, inl, inr, List, [], ◌∷◌, ◌++◌, Option, some, All,
  length, arith, length-append, append_assoc, drop-append, length-drop, subst, append-nil,
  Option-cases,
}
use ironwood.Wire.{
  Bytes, IsU64, PeerPort, wire_append_uint, wire_chop_uint, wire_size_path, wire_append_path,
  decode_ports, wire_decode_path, wire_chop_path,
}
use ironwood.Wire.Uvarint.{
  uvarint, wire_append_uint-uvarint, length-uvarint, wire_chop_uint-uvarint, wire_chop_uint_takes,
  wire_size_uint_bounds,
}

-- The bytes of a path, as the code appends them.
pub path_bytes : List PeerPort → Bytes
path_bytes [] = uvarint 0
path_bytes (p ∷ ps) = uvarint p ++ path_bytes ps

pub wire_append_path-path_bytes :
    (dest : Bytes) (ps : List PeerPort) → wire_append_path dest ps ≡ dest ++ path_bytes ps
unfolding wire_append_path path_bytes
wire_append_path-path_bytes dest [] = wire_append_uint-uvarint dest 0
wire_append_path-path_bytes dest (p ∷ ps) =
    wire_append_path-path_bytes (wire_append_uint dest p) ps
    ∙ rw (wire_append_uint-uvarint dest p) (append_assoc dest (uvarint p) (path_bytes ps))

pub length-path_bytes : (ps : List PeerPort) → length (path_bytes ps) ≡ wire_size_path ps
unfolding wire_size_path path_bytes
length-path_bytes [] = length-uvarint 0
length-path_bytes (p ∷ ps) =
    omega (arith, length-append (uvarint p) (path_bytes ps), length-uvarint p, length-path_bytes ps)

-- A port that a path may hold: a uint64 that is not zero, since zero ends the path.
abbrev pub IsPort : PeerPort → Type 0
IsPort p = IsU64 p × (p ≢ 0)

decode_ports_step :
    (fuel p : ℕ) (bs rest : Bytes) (path : List PeerPort)
    → wire_chop_uint bs ≡ some (p, rest)
    → p ≢ 0
    → decode_ports (suc fuel) bs path ≡ decode_ports fuel rest (path ++ (p ∷ []))
unfolding decode_ports
decode_ports_step fuel p bs rest path e h = rw (e, decode_ports) (ground arith)

decode_ports_end :
    (fuel : ℕ) (bs rest : Bytes) (path : List PeerPort)
    → wire_chop_uint bs ≡ some (0, rest)
    → decode_ports (suc fuel) bs path ≡ some (path, rest)
unfolding decode_ports
decode_ports_end fuel bs rest path e = rw (e, decode_ports)

decode_ports-path_bytes :
    (fuel : ℕ) (ps path : List PeerPort) (rest : Bytes)
    → All IsPort ps
    → length ps < fuel
    → decode_ports fuel (path_bytes ps ++ rest) path ≡ some (path ++ ps, rest)
unfolding path_bytes
decode_ports-path_bytes zero ps path rest hp hf = absurd (omega arith)
decode_ports-path_bytes (suc fuel) [] path rest hp hf =
    rw (append-nil path)
      (decode_ports_end fuel _ rest path (wire_chop_uint-uvarint 0 rest (omega arith)))
decode_ports-path_bytes (suc fuel) (p ∷ ps) path rest (hp, hps) hf =
    rw (append_assoc (uvarint p) (path_bytes ps) rest) (
      decode_ports_step fuel p _ _ path (wire_chop_uint-uvarint p (path_bytes ps ++ rest) hp.0) hp.1
      ∙ decode_ports-path_bytes fuel ps (path ++ (p ∷ [])) rest hps (omega arith)
      ∙ ap (λ (l : List PeerPort). some (l, rest)) (append_assoc path (p ∷ []) ps))

length-path_bytes_lower : (ps : List PeerPort) → length ps < length (path_bytes ps)
unfolding path_bytes
length-path_bytes_lower [] = omega (arith, length-uvarint 0, wire_size_uint_bounds 0)
length-path_bytes_lower (p ∷ ps) = omega (
  arith,
  length-append (uvarint p) (path_bytes ps),
  length-uvarint p,
  wire_size_uint_bounds p,
  length-path_bytes_lower ps,
)

wire_decode_path-path_bytes :
    (ps : List PeerPort) (rest : Bytes)
    → All IsPort ps
    → wire_decode_path (path_bytes ps ++ rest) ≡ some (ps, length (path_bytes ps))
unfolding wire_decode_path
wire_decode_path-path_bytes ps rest h =
    rw
      (
        decode_ports-path_bytes (suc (length (path_bytes ps ++ rest))) ps [] rest h
            (omega (arith, length-append (path_bytes ps) rest, length-path_bytes_lower ps)),
        wire_decode_path,
      )
      (ap (λ (n : ℕ). some (ps, n)) (omega (arith, length-append (path_bytes ps) rest)))

pub wire_chop_path-path_bytes :
    (out ps : List PeerPort) (rest : Bytes)
    → All IsPort ps
    → wire_chop_path out (path_bytes ps ++ rest) ≡ some (out ++ ps, rest)
unfolding wire_chop_path
wire_chop_path-path_bytes out ps rest h =
    rw (wire_decode_path-path_bytes ps rest h, wire_chop_path, drop-append (path_bytes ps) rest)

-- wireAppendPath appends as many bytes as wireSizePath says, and from them wireChopPath reads a path
-- of nonzero uint64 ports back, behind what it is to append to, and leaves what follows.
pub path_round_trip :
    (out before ps : List PeerPort) (rest : Bytes)
    → All IsPort ps
    → (bs : Bytes) × (wire_append_path out ps ≡ out ++ bs)
      × (length bs ≡ wire_size_path ps)
      × (wire_chop_path before (bs ++ rest) ≡ some (before ++ ps, rest))
path_round_trip out before ps rest h = (
  path_bytes ps,
  wire_append_path-path_bytes out ps,
  length-path_bytes ps,
  wire_chop_path-path_bytes before ps rest h,
)

-- With a round for each byte and one more, further rounds change nothing: the fuel is enough.
decode_ports_fuel :
    (fuel : ℕ) (bs : Bytes) (path : List PeerPort)
    → length bs < fuel
    → decode_ports (suc fuel) bs path ≡ decode_ports fuel bs path
decode_ports_fuel zero bs path h = absurd (omega arith)
decode_ports_fuel (suc fuel) bs path h = elim (Option-cases (wire_chop_uint bs)) [
  | inl e ↦ unfold decode_ports in rw (e, decode_ports)
  | inr ((zero, rest), e) ↦
      decode_ports_end (suc fuel) bs rest path e ∙ sym (decode_ports_end fuel bs rest path e)
  | inr ((suc u, rest), e) ↦
      decode_ports_step (suc fuel) (suc u) bs rest path e (omega arith)
      ∙ decode_ports_fuel fuel rest (path ++ (suc u ∷ []))
          (omega (arith, wire_chop_uint_takes bs (suc u) rest e))
      ∙ sym (decode_ports_step fuel (suc u) bs rest path e (omega arith))
]

All-append_one :
    (ps : List PeerPort) (p : PeerPort) → All IsPort ps → IsPort p → All IsPort (ps ++ (p ∷ []))
All-append_one [] p hs h = (h, tt)
All-append_one (q ∷ ps) p hs h = (hs.0, All-append_one ps p hs.1 h)

-- What a decoded path is: ports that are uint64s and not zero, from a byte at least.
abbrev Decodes : Bytes → List PeerPort → Bytes → Type 0
Decodes bs ps rest = All IsPort ps × (length rest < length bs)

Decodes-eq :
    (bs rest more : Bytes) (path got : List PeerPort)
    → ◌≡◌ {A = Option (List PeerPort × Bytes)} (some (path, more)) (some (got, rest))
    → Decodes bs path more
    → Decodes bs got rest
Decodes-eq bs rest more path got e d = (subst (All IsPort) (cc) d.0, rw (rests) at d.1)
  where
    rests : more ≡ rest
    rests = cc

decode_ports_takes :
    (fuel : ℕ) (bs : Bytes) (path got : List PeerPort) (rest : Bytes)
    → All IsPort path
    → decode_ports fuel bs path ≡ some (got, rest)
    → Decodes bs got rest
unfolding decode_ports
decode_ports_takes zero bs path got rest hp e = absurd (ground arith)
decode_ports_takes (suc fuel) bs path got rest hp e = elim (Option-cases (wire_chop_uint bs)) [
  | inl unread ↦ absurd (ground (arith, unread))
  | inr ((zero, more), read) ↦
      Decodes-eq bs rest more path got (sym (decode_ports_end fuel bs more path read) ∙ e)
        (hp, (wire_chop_uint_takes bs 0 more read).1)
  | inr ((suc u, more), read) ↦
      let taken = wire_chop_uint_takes bs (suc u) more read in
      let (ports, shorter) =
        decode_ports_takes fuel more (path ++ (suc u ∷ [])) got rest
          (All-append_one path (suc u) hp (taken.0, omega arith))
          (sym (decode_ports_step fuel (suc u) bs more path read (omega arith)) ∙ e) in
      (ports, omega (arith, taken.1))
]

-- A successful wireChopPath appends nonzero uint64 ports and takes a byte at least.
pub wire_chop_path_takes :
    (out path : List PeerPort) (bs rest : Bytes)
    → wire_chop_path out bs ≡ some (path, rest)
    → (ps : List PeerPort) × (path ≡ out ++ ps) × All IsPort ps × (length rest < length bs)
unfolding wire_chop_path wire_decode_path
wire_chop_path_takes out path bs rest e =
    elim (Option-cases (decode_ports (suc (length bs)) bs [])) [
      | inl unread ↦ absurd (ground (arith, unread))
      | inr ((ps, more), read) ↦
          let (ports, shorter) = decode_ports_takes (suc (length bs)) bs [] ps more tt read in
          (
            ps,
            ground (arith, read),
            ports,
            ground (arith, read, length-drop (length bs - length more) bs, shorter),
          )
    ]
