-- ===== src/Codec/G722/Tables.antt =====
-- The tables of G.722 (src/codec/g722.rs).
use rtp_engine.Base.{ℕ, List, [], ◌∷◌}
use rtp_engine.Base.Int.{ℤ, pos, negsuc}

-- The 12 coefficients of the 24-tap filters, used mirrored.
abbrev pub qmf : List ℤ
qmf =
    pos 3
    ∷ negsuc 10
    ∷ pos 12
    ∷ pos 32
    ∷ negsuc 209
    ∷ pos 951
    ∷ pos 3876
    ∷ negsuc 804
    ∷ pos 362
    ∷ negsuc 155
    ∷ pos 53
    ∷ negsuc 10
    ∷ []

-- The decision levels of the low band.
abbrev pub q6 : List ℕ
q6 =
    0 ∷ 35 ∷ 72 ∷ 110 ∷ 150 ∷ 190 ∷ 233 ∷ 276 ∷ 323 ∷ 370 ∷ 422 ∷ 473 ∷ 530 ∷ 587 ∷ 650 ∷ 714 ∷ 786
    ∷ 858 ∷ 940 ∷ 1023 ∷ 1121 ∷ 1219 ∷ 1339 ∷ 1458 ∷ 1612 ∷ 1765 ∷ 1980 ∷ 2195 ∷ 2557 ∷ 2919 ∷ 0 ∷ 0
    ∷ []

-- The codes of a negative difference of the low band, by interval.
abbrev pub iln : List ℕ
iln =
    0 ∷ 63 ∷ 62 ∷ 31 ∷ 30 ∷ 29 ∷ 28 ∷ 27 ∷ 26 ∷ 25 ∷ 24 ∷ 23 ∷ 22 ∷ 21 ∷ 20 ∷ 19 ∷ 18 ∷ 17 ∷ 16 ∷ 15
    ∷ 14 ∷ 13 ∷ 12 ∷ 11 ∷ 10 ∷ 9 ∷ 8 ∷ 7 ∷ 6 ∷ 5 ∷ 4 ∷ 0 ∷ []

-- The codes of a positive one.
abbrev pub ilp : List ℕ
ilp =
    0 ∷ 61 ∷ 60 ∷ 59 ∷ 58 ∷ 57 ∷ 56 ∷ 55 ∷ 54 ∷ 53 ∷ 52 ∷ 51 ∷ 50 ∷ 49 ∷ 48 ∷ 47 ∷ 46 ∷ 45 ∷ 44 ∷ 43
    ∷ 42 ∷ 41 ∷ 40 ∷ 39 ∷ 38 ∷ 37 ∷ 36 ∷ 35 ∷ 34 ∷ 33 ∷ 32 ∷ 0 ∷ []

-- The multipliers of the low band's log scale factor.
abbrev pub wl : List ℤ
wl = negsuc 59 ∷ negsuc 29 ∷ pos 58 ∷ pos 172 ∷ pos 334 ∷ pos 538 ∷ pos 1198 ∷ pos 3042 ∷ []

-- From a 4-bit code of the low band to its index into `wl`.
abbrev pub rl42 : List ℕ
rl42 = 0 ∷ 7 ∷ 6 ∷ 5 ∷ 4 ∷ 3 ∷ 2 ∷ 1 ∷ 7 ∷ 6 ∷ 5 ∷ 4 ∷ 3 ∷ 2 ∷ 1 ∷ 0 ∷ []

-- The antilogarithms for the scale factors.
abbrev pub ilb : List ℕ
ilb =
    2048 ∷ 2093 ∷ 2139 ∷ 2186 ∷ 2233 ∷ 2282 ∷ 2332 ∷ 2383 ∷ 2435 ∷ 2489 ∷ 2543 ∷ 2599 ∷ 2656 ∷ 2714
    ∷ 2774 ∷ 2834 ∷ 2896 ∷ 2960 ∷ 3025 ∷ 3091 ∷ 3158 ∷ 3228 ∷ 3298 ∷ 3371 ∷ 3444 ∷ 3520 ∷ 3597
    ∷ 3676 ∷ 3756 ∷ 3838 ∷ 3922 ∷ 4008 ∷ []

-- The inverse quantizer of the 4-bit low band code, which the predictor adapts on.
abbrev pub qm4 : List ℤ
qm4 =
    pos 0
    ∷ negsuc 20455
    ∷ negsuc 12895
    ∷ negsuc 8967
    ∷ negsuc 6287
    ∷ negsuc 4239
    ∷ negsuc 2583
    ∷ negsuc 1199
    ∷ pos 20456
    ∷ pos 12896
    ∷ pos 8968
    ∷ pos 6288
    ∷ pos 4240
    ∷ pos 2584
    ∷ pos 1200
    ∷ pos 0
    ∷ []

-- The inverse quantizer of the 6-bit low band code, which the output is made of.
abbrev pub qm6 : List ℤ
qm6 =
    negsuc 135
    ∷ negsuc 135
    ∷ negsuc 135
    ∷ negsuc 135
    ∷ negsuc 24807
    ∷ negsuc 21903
    ∷ negsuc 19007
    ∷ negsuc 16703
    ∷ negsuc 14983
    ∷ negsuc 13511
    ∷ negsuc 12279
    ∷ negsuc 11191
    ∷ negsuc 10231
    ∷ negsuc 9359
    ∷ negsuc 8575
    ∷ negsuc 7855
    ∷ negsuc 7191
    ∷ negsuc 6575
    ∷ negsuc 5999
    ∷ negsuc 5455
    ∷ negsuc 4943
    ∷ negsuc 4463
    ∷ negsuc 4007
    ∷ negsuc 3575
    ∷ negsuc 3167
    ∷ negsuc 2775
    ∷ negsuc 2399
    ∷ negsuc 2031
    ∷ negsuc 1687
    ∷ negsuc 1359
    ∷ negsuc 1039
    ∷ negsuc 727
    ∷ pos 24808
    ∷ pos 21904
    ∷ pos 19008
    ∷ pos 16704
    ∷ pos 14984
    ∷ pos 13512
    ∷ pos 12280
    ∷ pos 11192
    ∷ pos 10232
    ∷ pos 9360
    ∷ pos 8576
    ∷ pos 7856
    ∷ pos 7192
    ∷ pos 6576
    ∷ pos 6000
    ∷ pos 5456
    ∷ pos 4944
    ∷ pos 4464
    ∷ pos 4008
    ∷ pos 3576
    ∷ pos 3168
    ∷ pos 2776
    ∷ pos 2400
    ∷ pos 2032
    ∷ pos 1688
    ∷ pos 1360
    ∷ pos 1040
    ∷ pos 728
    ∷ pos 432
    ∷ pos 136
    ∷ negsuc 431
    ∷ negsuc 135
    ∷ []

-- The inverse quantizer of the high band code.
abbrev pub qm2 : List ℤ
qm2 = negsuc 7407 ∷ negsuc 1615 ∷ pos 7408 ∷ pos 1616 ∷ []

-- The codes of a negative difference of the high band, by interval.
abbrev pub ihn : List ℕ
ihn = 0 ∷ 1 ∷ 0 ∷ []

-- The codes of a positive one.
abbrev pub ihp : List ℕ
ihp = 0 ∷ 3 ∷ 2 ∷ []

-- The multipliers of the high band's log scale factor.
abbrev pub wh : List ℤ
wh = pos 0 ∷ negsuc 213 ∷ pos 798 ∷ []

-- From a 2-bit code of the high band to its index into `wh`.
abbrev pub rh2 : List ℕ
rh2 = 2 ∷ 1 ∷ 2 ∷ 1 ∷ []
