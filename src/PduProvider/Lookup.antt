-- ===== src/PduProvider/Lookup.antt =====
-- blueprints_ng/providers/pdu/pdu_provider.py: looking a PDU up by its name.
use e_pem.Prelude.{String, ◌≡◌, refl, Bool, Option, none, some, List, [], ◌∷◌, ◌==◌, arith, eq_iff}
use e_pem.Result.{Error, err, pdu_provider_exception, attribute_error}
use e_pem.Exec.{◌>>=◌, reads, lift}
use e_pem.PyList.{select, find_first}
use e_pem.Network.{PduModel}
use e_pem.TopologyModel.{TopologyModel}
use e_pem.PduProvider.{PduProvider, get_pdus, head_of, find_by_name}
use e_pem.PduProvider.Locking.{stored}

select-none : {A : Type 0} (p : A → Bool) (l : List A) → find_first p l ≡ none → select p l ≡ []
unfolding find_first select
select-none p [] h = refl
select-none p (x ∷ xs) h = ground (arith, select-none p xs)

pub find_by_name-absent :
    (self : PduProvider) (db : Option TopologyModel) (name : String)
    → self.db ≡ db
    → stored db name ≡ none
    → (e : Error) × (find_by_name name self ≡ (err e, self))
unfolding find_by_name get_pdus head_of reads lift ◌>>=◌
find_by_name-absent self none name e h = (attribute_error, ground arith)
find_by_name-absent self (some m) name e h =
    (pdu_provider_exception, ground (arith, select-none (λ p. p.name == name) m.pdus h))

find_first-name :
    (name : String) (l : List PduModel) (q : PduModel)
    → find_first (λ p. p.name == name) l ≡ some q
    → q.name ≡ name
unfolding find_first
find_first-name name [] q h = absurd (ground arith)
find_first-name name (x ∷ xs) q h = ground (arith, find_first-name name xs q, eq_iff x.name name)

pub stored-name :
    (db : Option TopologyModel) (name : String) (q : PduModel)
    → stored db name ≡ some q
    → q.name ≡ name
stored-name none name q h = absurd (ground arith)
stored-name (some m) name q h = find_first-name name m.pdus q h
