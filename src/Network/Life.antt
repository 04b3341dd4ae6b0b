-- ===== src/Network/Life.antt =====
-- That a network runs until it is stopped, once and for all.
use factom_p2p.Prelude.{ℕ, suc, ◌+◌, ◌≡◌, refl, Bool, true, false, not, List, [], ◌∷◌, arith}
use factom_p2p.Parcel.{Parcel}
use factom_p2p.Network.{Network, run, stop, send_parcel}

-- The calls of an application.
pub data Op : Type 0 where
  runs stops : Op
  sends : Parcel → Op

-- The network after a call, and whether the call returned without an error.
unfoldable pub step : Op → Network → Network × Bool
unfolding run stop send_parcel
step runs n = run n
step stops n = stop n
step (sends p) n = ((send_parcel n p).0, true)

unfoldable pub operate : Network → List Op → Network × List Bool
operate n [] = (n, [])
operate n (op ∷ ops) =
    let (n', ok) = step op n in let (last, results) = operate n' ops in (last, ok ∷ results)

-- What the calls return: everything succeeds up to the first Stop and Stop itself, and after it
-- neither Run nor Stop does.
unfoldable pub expected : Bool → List Op → List Bool
expected stopped [] = []
expected stopped (runs ∷ ops) = not stopped ∷ expected stopped ops
expected stopped (stops ∷ ops) = not stopped ∷ expected true ops
expected stopped (sends p ∷ ops) = true ∷ expected stopped ops

-- The runs before the first Stop.
unfoldable pub runs_before_stop : List Op → ℕ
runs_before_stop [] = 0
runs_before_stop (runs ∷ ops) = suc (runs_before_stop ops)
runs_before_stop (stops ∷ ops) = 0
runs_before_stop (sends p ∷ ops) = runs_before_stop ops

unfoldable pub Lives : Network → List Op → Network × List Bool → Type 0
Lives n ops (last, results) =
    (results ≡ expected n.stopped ops)
    × (last.starts ≡ n.starts + (elim n.stopped [ true ↦ 0 | false ↦ runs_before_stop ops ]))

stopped-Lives : (n : Network) (ops : List Op) → n.stopped ≡ true → Lives n ops (operate n ops)
unfolding Lives operate step expected run stop send_parcel
stopped-Lives n [] h = rw h (refl, omega arith)
stopped-Lives n (runs ∷ ops) h = let r = stopped-Lives n ops h in ground (arith, h, r)
stopped-Lives n (stops ∷ ops) h = let r = stopped-Lives n ops h in ground (arith, h, r)
stopped-Lives n (sends p ∷ ops) h =
    let r = stopped-Lives (send_parcel n p).0 ops h in ground (arith, h, r)

running-Lives : (n : Network) (ops : List Op) → n.stopped ≡ false → Lives n ops (operate n ops)
unfolding Lives operate step expected run stop send_parcel runs_before_stop
running-Lives n [] h = rw h (refl, omega arith)
running-Lives n (runs ∷ ops) h =
    let r = running-Lives (record n { starts = suc n.starts }) ops h in ground (arith, h, r)
running-Lives n (stops ∷ ops) h =
    let r = stopped-Lives (record n { stopped = true }) ops refl in ground (arith, h, r)
running-Lives n (sends p ∷ ops) h =
    let r = running-Lives (send_parcel n p).0 ops h in ground (arith, h, r)

-- Over any calls of Run, Stop and Send on a network that is not stopped, in any order, Run and Stop
-- succeed exactly until the first Stop, which succeeds, Send always returns, and the controller's
-- loops are started once for each Run before that Stop and never afterwards.
pub operate-Lives : (n : Network) (ops : List Op) → n.stopped ≡ false → Lives n ops (operate n ops)
operate-Lives = running-Lives
