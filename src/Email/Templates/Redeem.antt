-- ===== src/Email/Templates/Redeem.antt =====
-- src/modules/email/templates/redeem-email.ts.
use vnst_be.Utils.Format.{convert_wallet_to_short_string}
use vnst_be.Base.{List, [], ◌∷◌, Text, Option}
use vnst_be.Schema.Chains.{Network}
use vnst_be.External.Env.{Env, tx_link}
use vnst_be.Email.Templates.Pieces.{Piece, lit, hole, render, printed}

abbrev pub redeem_pieces : Env → Text → Option Text → Network → List Piece
redeem_pieces env wallet_address transaction_hash network =
    lit "        <div\n"
    ∷ lit "  style=\"\n"
    ∷ lit "    margin-top: 20px;\n"
    ∷ lit "    font-size: 20px;\n"
    ∷ lit "    font-style: normal;\n"
    ∷ lit "    font-weight: 700;\n"
    ∷ lit "    line-height: 24px;\n"
    ∷ lit "    color: var(--color-vnst-ver-1-black, var(--label-color-lv-1, #000));\n"
    ∷ lit "  \"\n"
    ∷ lit ">\n"
    ∷ lit "  Successfully Redeemed\n"
    ∷ lit "</div>\n"
    ∷ lit "\n"
    ∷ lit "<div\n"
    ∷ lit "  style=\"\n"
    ∷ lit "    margin-top: 8px;\n"
    ∷ lit "    color: var(--color-vnst-ver-1-dark-3, #888);\n"
    ∷ lit "    font-size: 12px;\n"
    ∷ lit "    font-style: normal;\n"
    ∷ lit "    font-weight: 500;\n"
    ∷ lit "    line-height: 14px;\n"
    ∷ lit "  \"\n"
    ∷ lit ">\n"
    ∷ lit "  Congratulations, you have successfully redeemed VNST from Wallet\n"
    ∷ lit "  "
    ∷ hole (convert_wallet_to_short_string wallet_address)
    ∷ lit ".\n"
    ∷ lit "</div>\n"
    ∷ lit "\n"
    ∷ lit "<div\n"
    ∷ lit "  style=\"\n"
    ∷ lit "    color: var(--color-vnst-ver-1-black, var(--label-color-lv-1, #000));\n"
    ∷ lit "    font-size: 12px;\n"
    ∷ lit "    font-style: normal;\n"
    ∷ lit "    font-weight: 500;\n"
    ∷ lit "    line-height: 14px;\n"
    ∷ lit "    margin-top: 30px;\n"
    ∷ lit "  \"\n"
    ∷ lit ">\n"
    ∷ lit "  To view the transaction details, please click on TxH:\n"
    ∷ lit "</div>\n"
    ∷ lit "\n"
    ∷ lit "<div\n"
    ∷ lit "  style=\"\n"
    ∷ lit "    margin: 12px 0;\n"
    ∷ lit "    border-radius: 10px;\n"
    ∷ lit "    background: #eee;\n"
    ∷ lit "    padding: 12px 16px;\n"
    ∷ lit "    color: var(--color-vnst-ver-2-d-08900, #00c096);\n"
    ∷ lit "    text-align: left;\n"
    ∷ lit "    font-size: 16px;\n"
    ∷ lit "    font-style: normal;\n"
    ∷ lit "    line-height: 24px;\n"
    ∷ lit "    margin-bottom: 6px;\n"
    ∷ lit "  \"\n"
    ∷ lit ">\n"
    ∷ lit "  <a\n"
    ∷ lit "    style=\"\n"
    ∷ lit "    overflow: hidden;\n"
    ∷ lit "    text-overflow: ellipsis;\n"
    ∷ lit "    text-decoration: none;\n"
    ∷ lit "    text-align: left;\n"
    ∷ lit "    color: #00c096;\n"
    ∷ lit "    display: inline-block;\n"
    ∷ lit "    height: 24px;\n"
    ∷ lit "    width: calc(100% - 31px);\n"
    ∷ lit "    line-height: 35px;\n"
    ∷ lit "    word-break: break-all;\n"
    ∷ lit "    \"\n"
    ∷ lit "    href=\""
    ∷ hole (printed (tx_link env network))
    ∷ lit "/"
    ∷ hole (printed transaction_hash)
    ∷ lit "\"\n"
    ∷ lit "  >\n"
    ∷ lit "    "
    ∷ hole (printed transaction_hash)
    ∷ lit "\n"
    ∷ lit "  </a>\n"
    ∷ lit "</div>\n"
    ∷ lit "\n"
    ∷ lit "<div\n"
    ∷ lit "  style=\"\n"
    ∷ lit "    margin-top: 12px;\n"
    ∷ lit "    color: var(--color-vnst-ver-1-black, var(--label-color-lv-1, #000));\n"
    ∷ lit "    font-size: 10px;\n"
    ∷ lit "    font-style: normal;\n"
    ∷ lit "    font-weight: 500;\n"
    ∷ lit "    line-height: 14px;\n"
    ∷ lit "  \"\n"
    ∷ lit ">\n"
    ∷ lit "  If you did not perform this action, please check your Wallet\n"
    ∷ lit "  activities or review the TxH details.\n"
    ∷ lit "</div>\n"
    ∷ lit "\n"
    ∷ lit "<div\n"
    ∷ lit "  style=\"\n"
    ∷ lit "    margin-top: 15px;\n"
    ∷ lit "    color: var(--label-color-lv-1, #000);\n"
    ∷ lit "    font-size: 10px;\n"
    ∷ lit "    font-style: normal;\n"
    ∷ lit "    font-weight: 500;\n"
    ∷ lit "    line-height: 18px;\n"
    ∷ lit "  \"\n"
    ∷ lit ">\n"
    ∷ lit "  This is an automated email from the system, please do not reply!\n"
    ∷ lit "</div>\n"
    ∷ lit "  "
    ∷ []

unfoldable pub redeem_template : Env → Text → Option Text → Network → Text
redeem_template env wallet_address transaction_hash network =
    render (redeem_pieces env wallet_address transaction_hash network)
