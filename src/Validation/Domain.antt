-- ===== src/Validation/Domain.antt =====
-- server/src/services/validation/domain.ts: the compiled-in code lists.
use cargo_execution_assistan.Prelude.{String, List, [], ◌∷◌}

-- `PORT_OF_ENTRY`
abbrev pub port_of_entry : List String
port_of_entry =
    "0101" ∷ "0401" ∷ "1001" ∷ "1101" ∷ "1303" ∷ "1401" ∷ "1601" ∷ "1701" ∷ "1801" ∷ "1803" ∷ "1901"
    ∷ "2002" ∷ "2304" ∷ "2402" ∷ "2506" ∷ "2704" ∷ "2720" ∷ "2809" ∷ "3001" ∷ "3401" ∷ "3801"
    ∷ "3901" ∷ "4103" ∷ "4501" ∷ "4701" ∷ "5301" ∷ []

-- `COUNTRY`
abbrev pub country : List String
country =
    "AD" ∷ "AE" ∷ "AF" ∷ "AG" ∷ "AI" ∷ "AL" ∷ "AM" ∷ "AO" ∷ "AQ" ∷ "AR" ∷ "AS" ∷ "AT" ∷ "AU" ∷ "AW"
    ∷ "AX" ∷ "AZ" ∷ "BA" ∷ "BB" ∷ "BD" ∷ "BE" ∷ "BF" ∷ "BG" ∷ "BH" ∷ "BI" ∷ "BJ" ∷ "BL" ∷ "BM"
    ∷ "BN" ∷ "BO" ∷ "BQ" ∷ "BR" ∷ "BS" ∷ "BT" ∷ "BV" ∷ "BW" ∷ "BY" ∷ "BZ" ∷ "CA" ∷ "CC" ∷ "CD"
    ∷ "CF" ∷ "CG" ∷ "CH" ∷ "CI" ∷ "CK" ∷ "CL" ∷ "CM" ∷ "CN" ∷ "CO" ∷ "CR" ∷ "CU" ∷ "CV" ∷ "CW"
    ∷ "CX" ∷ "CY" ∷ "CZ" ∷ "DE" ∷ "DJ" ∷ "DK" ∷ "DM" ∷ "DO" ∷ "DZ" ∷ "EC" ∷ "EE" ∷ "EG" ∷ "EH"
    ∷ "ER" ∷ "ES" ∷ "ET" ∷ "FI" ∷ "FJ" ∷ "FK" ∷ "FM" ∷ "FO" ∷ "FR" ∷ "GA" ∷ "GB" ∷ "GD" ∷ "GE"
    ∷ "GF" ∷ "GG" ∷ "GH" ∷ "GI" ∷ "GL" ∷ "GM" ∷ "GN" ∷ "GP" ∷ "GQ" ∷ "GR" ∷ "GS" ∷ "GT" ∷ "GU"
    ∷ "GW" ∷ "GY" ∷ "HK" ∷ "HM" ∷ "HN" ∷ "HR" ∷ "HT" ∷ "HU" ∷ "ID" ∷ "IE" ∷ "IL" ∷ "IM" ∷ "IN"
    ∷ "IO" ∷ "IQ" ∷ "IR" ∷ "IS" ∷ "IT" ∷ "JE" ∷ "JM" ∷ "JO" ∷ "JP" ∷ "KE" ∷ "KG" ∷ "KH" ∷ "KI"
    ∷ "KM" ∷ "KN" ∷ "KP" ∷ "KR" ∷ "KW" ∷ "KY" ∷ "KZ" ∷ "LA" ∷ "LB" ∷ "LC" ∷ "LI" ∷ "LK" ∷ "LR"
    ∷ "LS" ∷ "LT" ∷ "LU" ∷ "LV" ∷ "LY" ∷ "MA" ∷ "MC" ∷ "MD" ∷ "ME" ∷ "MF" ∷ "MG" ∷ "MH" ∷ "MK"
    ∷ "ML" ∷ "MM" ∷ "MN" ∷ "MO" ∷ "MP" ∷ "MQ" ∷ "MR" ∷ "MS" ∷ "MT" ∷ "MU" ∷ "MV" ∷ "MW" ∷ "MX"
    ∷ "MY" ∷ "MZ" ∷ "NA" ∷ "NC" ∷ "NE" ∷ "NF" ∷ "NG" ∷ "NI" ∷ "NL" ∷ "NO" ∷ "NP" ∷ "NR" ∷ "NU"
    ∷ "NZ" ∷ "OM" ∷ "PA" ∷ "PE" ∷ "PF" ∷ "PG" ∷ "PH" ∷ "PK" ∷ "PL" ∷ "PM" ∷ "PN" ∷ "PR" ∷ "PS"
    ∷ "PT" ∷ "PW" ∷ "PY" ∷ "QA" ∷ "RE" ∷ "RO" ∷ "RS" ∷ "RU" ∷ "RW" ∷ "SA" ∷ "SB" ∷ "SC" ∷ "SD"
    ∷ "SE" ∷ "SG" ∷ "SH" ∷ "SI" ∷ "SJ" ∷ "SK" ∷ "SL" ∷ "SM" ∷ "SN" ∷ "SO" ∷ "SR" ∷ "SS" ∷ "ST"
    ∷ "SV" ∷ "SX" ∷ "SY" ∷ "SZ" ∷ "TC" ∷ "TD" ∷ "TF" ∷ "TG" ∷ "TH" ∷ "TJ" ∷ "TK" ∷ "TL" ∷ "TM"
    ∷ "TN" ∷ "TO" ∷ "TR" ∷ "TT" ∷ "TV" ∷ "TW" ∷ "TZ" ∷ "UA" ∷ "UG" ∷ "UM" ∷ "US" ∷ "UY" ∷ "UZ"
    ∷ "VA" ∷ "VC" ∷ "VE" ∷ "VG" ∷ "VI" ∷ "VN" ∷ "VU" ∷ "WF" ∷ "WS" ∷ "YE" ∷ "YT" ∷ "ZA" ∷ "ZM"
    ∷ "ZW" ∷ []

-- `UNIT_OF_MEASURE`
abbrev pub unit_of_measure : List String
unit_of_measure = "KG" ∷ "LB" ∷ "MT" ∷ "L" ∷ "M3" ∷ "PCS" ∷ "CTN" ∷ "PLT" ∷ "BOX" ∷ "SET" ∷ []

-- `GENERIC_DESCRIPTION`
abbrev pub generic_description : List String
generic_description =
    "goods" ∷ "cargo" ∷ "freight" ∷ "merchandise" ∷ "items" ∷ "products" ∷ "general merchandise"
    ∷ "various" ∷ "various goods" ∷ "assorted" ∷ "assorted goods" ∷ "misc" ∷ "miscellaneous"
    ∷ "sample" ∷ "samples" ∷ "parts" ∷ "spare parts" ∷ "n/a" ∷ "na" ∷ "tbd" ∷ "unknown"
    ∷ "see attached" ∷ "as per invoice" ∷ []

-- `MODE_OF_TRANSPORT`
abbrev pub modes_of_transport : List String
modes_of_transport = "OCEAN" ∷ "AIR" ∷ "TRUCK" ∷ "RAIL" ∷ []
