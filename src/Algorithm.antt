-- ===== src/Algorithm.antt =====
-- The COSE algorithm identifiers of src/t_cose_standard_constants.h, the lists of
-- src/t_cose_crypto.h and the maps of src/t_cose_util.c. No T_COSE_DISABLE_ macro is defined.
use t_cose.Common.{ℤ, pos, negsuc, eq_ℤ, Bool, true, false, ◌||◌, List, [], ◌∷◌, if◌then◌else◌}

abbrev pub cose_algorithm_reserved : ℤ
cose_algorithm_reserved = pos 0

-- -7, -8, -35, -36, -37, -38 and -39; then -16, -43 and -44.
abbrev pub cose_algorithm_es256 : ℤ
cose_algorithm_es256 = negsuc 6

abbrev pub cose_algorithm_eddsa : ℤ
cose_algorithm_eddsa = negsuc 7

abbrev pub cose_algorithm_es384 : ℤ
cose_algorithm_es384 = negsuc 34

abbrev pub cose_algorithm_es512 : ℤ
cose_algorithm_es512 = negsuc 35

abbrev pub cose_algorithm_ps256 : ℤ
cose_algorithm_ps256 = negsuc 36

abbrev pub cose_algorithm_ps384 : ℤ
cose_algorithm_ps384 = negsuc 37

abbrev pub cose_algorithm_ps512 : ℤ
cose_algorithm_ps512 = negsuc 38

abbrev pub cose_algorithm_sha_256 : ℤ
cose_algorithm_sha_256 = negsuc 15

abbrev pub cose_algorithm_sha_384 : ℤ
cose_algorithm_sha_384 = negsuc 42

abbrev pub cose_algorithm_sha_512 : ℤ
cose_algorithm_sha_512 = negsuc 43

-- T_COSE_INVALID_ALGORITHM_ID
abbrev pub invalid_algorithm_id : ℤ
invalid_algorithm_id = cose_algorithm_reserved

-- Every array that is passed ends with its terminator 0, so the walk stops before the end.
unfoldable pub check_list : ℤ → List ℤ → Bool
check_list id [] = false
check_list id (x ∷ xs) =
    let rest = check_list id xs in
    if eq_ℤ x (pos 0) then false else if eq_ℤ x id then true else rest

unfoldable pub is_ecdsa : ℤ → Bool
unfolding check_list
is_ecdsa id =
    check_list id (cose_algorithm_es256 ∷ cose_algorithm_es384 ∷ cose_algorithm_es512 ∷ pos 0 ∷ [])

unfoldable pub is_rsassa_pss : ℤ → Bool
unfolding check_list
is_rsassa_pss id =
    check_list id (cose_algorithm_ps256 ∷ cose_algorithm_ps384 ∷ cose_algorithm_ps512 ∷ pos 0 ∷ [])

unfoldable pub signature_algorithm_id_is_supported : ℤ → Bool
signature_algorithm_id_is_supported id =
    eq_ℤ id cose_algorithm_es256
    || eq_ℤ id cose_algorithm_es384
    || eq_ℤ id cose_algorithm_es512
    || eq_ℤ id cose_algorithm_ps256
    || eq_ℤ id cose_algorithm_ps384
    || eq_ℤ id cose_algorithm_ps512
    || eq_ℤ id cose_algorithm_eddsa

unfoldable pub hash_alg_id_from_sig_alg_id : ℤ → ℤ
hash_alg_id_from_sig_alg_id id =
    if eq_ℤ id cose_algorithm_es256
    then cose_algorithm_sha_256
    else if eq_ℤ id cose_algorithm_es384
    then cose_algorithm_sha_384
    else if eq_ℤ id cose_algorithm_es512
    then cose_algorithm_sha_512
    else if eq_ℤ id cose_algorithm_ps256
    then cose_algorithm_sha_256
    else if eq_ℤ id cose_algorithm_ps384
    then cose_algorithm_sha_384
    else if eq_ℤ id cose_algorithm_ps512
    then cose_algorithm_sha_512
    else invalid_algorithm_id
