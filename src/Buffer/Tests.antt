-- ===== src/Buffer/Tests.antt =====
-- Runs of buffer.c on small buffers.
use tpe_protos.Base.{◌≡◌, refl, List, [], ◌∷◌, ok, arith}
use tpe_protos.Buffer.{Buffer, init}
use tpe_protos.Buffer.Valid.{IsValid}
use tpe_protos.Buffer.Queue.{Op, put, get, squeeze, view, queue_run, buffer_run, buffer_run-view}

abbrev start : Buffer
start = record { bytes = 0 ∷ 0 ∷ 0 ∷ []; limit = 3; read_at = 0; write_at = 0 }

start-IsValid : IsValid start
start-IsValid = omega arith

init_is_start : init 3 (0 ∷ 0 ∷ 0 ∷ []) ≡ start
unfolding init
init_is_start = refl

abbrev ops : List Op
ops = put 7 ∷ put 8 ∷ get ∷ squeeze ∷ put 9 ∷ put 1 ∷ put 2 ∷ get ∷ get ∷ get ∷ []

replies : (queue_run ops (view start)).0 ≡ 0 ∷ 0 ∷ 7 ∷ 0 ∷ 0 ∷ 0 ∷ 0 ∷ 8 ∷ 9 ∷ 1 ∷ []
replies = refl

buffer_run-view_example :
    (b' : Buffer) × (buffer_run ops start ≡ ok ((queue_run ops (view start)).0, b'))
    × IsValid b'
    × (view b' ≡ (queue_run ops (view start)).1)
buffer_run-view_example = buffer_run-view ops start start-IsValid
